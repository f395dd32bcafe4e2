-- ===== src/Tests/Actions.antt =====
-- A player with 40 coins, a meadow, a folio of two parcels, and a treasure.
use siedler_sterreich.Prelude.{
  String, true, false, not, ◌&&◌, ◌||◌, [], ◌∷◌, ◌++◌, none, some, ltb, has, str_eq, ◌≡◌, refl,
  if◌then◌else◌,
}
use siedler_sterreich.Claims.{Claim, unset}
use siedler_sterreich.Folio.{has_parcel}
use siedler_sterreich.Folio.Current.{not_yet, search_folio}
use siedler_sterreich.Actions.{Player, Selected, Treasure, Page, granted}
use siedler_sterreich.Actions.Land.{Harvested, do_harvest_reply}
use siedler_sterreich.Actions.Market.{is_claimed, do_claim_ez}
use siedler_sterreich.Actions.Hunt.{Found, herald_tells, claim_treasure_reply}
use siedler_sterreich.Actions.Answers.{harvested, is_lost, purse_after, is_thrown, Answer-player}
use siedler_sterreich.Actions.Answers.Folio.{ids_asked, folio_key, indexed, do_claim_ez-search}
use siedler_sterreich.Actions.Answers.Trees.{
  lists, is_granted, is_settled, stories, scouts, claim_treasure_reply-Once,
}
use siedler_sterreich.Tests.Map.{parcel, unbuilt}

abbrev claim_of : String → Claim
claim_of pid = record {
  names = record { parcel_hash = "a1"; parcel_id = pid; ez_hash = ""; ez = "" };
  player_id = "2";
  landuse = "48";
  converted_to = "";
  convert_xp = 0;
  purchase_price = 120;
  harvested_at = unset;
}

abbrev field : Selected
field = record {
  parcel = parcel "12105-68/3" "7";
  plot = record {
    lu = (parcel "12105-68/3" "7").facts.lu;
    field = record { parcel_id = "12105-68/3"; id_units = []; schlag = some "getreide" };
    tree = none;
  };
  spot = none;
  organic = false;
  station = false;
  tall_count = 0;
  tall_max_h = 0;
}

abbrev page : Page
page = record {
  player = record { id = "1"; coins = 40 };
  sel = some field;
  ez_highlight = none;
  claimed = record { id = 5; claim = claim_of "12105-68/3" } ∷ [];
  ez_index = [];
  parcel_popup_open = true;
  ez_popup_open = false;
  field_eco = [];
  forest_values = [];
  scenes = [];
  treasures = record { id = "t1"; treasure_type = "coins" } ∷ [];
  beacon_rounds = 2;
  tall_revealed = false;
  tall_unlocked = false;
  tall_trees = 3;
  kgs_loaded = [];
  enhanced = [];
  herald_seen = [];
}

-- The popup has been closed while the request was under way.
abbrev closed : Page
closed = record page { sel = none }

abbrev crop : Harvested
crop = record { coins = 12; xp = 3; efm = 0; player = record { id = "1"; coins = 52 } }

abbrev richer : Player
richer = record { id = "1"; coins = 52 }

Answer-player_example :
    ((do_harvest_reply field (granted crop) closed).page.player ≡ (
      if is_lost true (some richer) closed
      then closed.player
      else purse_after (some richer) closed.player))
    × (is_thrown (do_harvest_reply field (granted crop) closed).ends
        ≡ is_lost true (some richer) closed)
Answer-player_example = Answer-player closed (harvested field (granted crop))

do_claim_ez-search_example :
    has "12105-70" (
      ids_asked
        (do_claim_ez "12105" "7" (
          indexed
            (parcel "12105-68/3" "7" ∷ [] ++ parcel "12105-70" "7" ∷ [])
            ([] ++ [])
            unbuilt
            page)).ends)
    ≡ (has_parcel "12105-70" (
          search_folio
            (folio_key "12105" "7")
            (parcel "12105-68/3" "7" ∷ [] ++ parcel "12105-70" "7" ∷ [])
            ([] ++ []))
        && not (is_claimed "12105-70" page.claimed))
do_claim_ez-search_example =
    do_claim_ez-search "12105-70" "12105" "7" (parcel "12105-68/3" "7" ∷ [])
      (parcel "12105-70" "7" ∷ []) [] [] unbuilt page (not_yet refl)

abbrev chest : Treasure
chest = record { id = "t1"; treasure_type = "coins" }

abbrev coins : Found
coins = record { type = "coins"; species_german = ""; value = 30; player = richer }

claim_treasure_reply-Once_example :
    (lists "t1" (claim_treasure_reply chest (granted coins) page).page.treasures
      ≡ (lists "t1" page.treasures && not (str_eq chest.id "t1" && is_settled (granted coins))))
    × ((claim_treasure_reply chest (granted coins) page).page.tall_unlocked
        ≡ (is_granted (granted coins) || page.tall_unlocked))
    × (scouts (claim_treasure_reply chest (granted coins) page).calls
        ≡ (if is_granted (granted coins) && not page.tall_unlocked then 1 else 0))
    × (stories (claim_treasure_reply chest (granted coins) page).calls ≡ (
        if is_granted (granted coins)
          && not page.tall_unlocked
          && (herald_tells page || ltb 0 page.tall_trees)
        then 1
        else 0))
claim_treasure_reply-Once_example = claim_treasure_reply-Once "t1" chest (granted coins) page
