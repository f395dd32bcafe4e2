-- ===== src/Actions/Hunt.antt =====
-- srv/static/game.js: `claimTreasure`.
use siedler_sterreich.Prelude.{
  ℕ, ◌/◌, String, Bool, true, false, not, ◌&&◌, ◌||◌, List, [], ◌∷◌, ◌++◌, Option, none, some, ltb,
  ◌==◌, str_eq, has, keep_if, if◌then◌else◌,
}
use siedler_sterreich.Folio.{enhanced_loaded}
use siedler_sterreich.Claims.{is_text}
use siedler_sterreich.Toasts.{ok, err}
use siedler_sterreich.Actions.{
  Player, Treasure, Page, Notice, Call, Run, Reply, refused, granted, call_if, ask, says, later,
  treasure_fx, updates_stats, renders, loads_challenges, loads_giants, hints, error, sighting,
  species_found, treasure, rumour, returns, claim_treasure,
}

pub record Found : Type 0 where
  pub type : String
  pub species_german : String
  pub value : ℕ
  pub player : Player

abbrev pub ask_treasure : Treasure → Page → Run
ask_treasure t g = ask (claim_treasure t.id) g

abbrev pub without : String → List Treasure → List Treasure
without id ts = keep_if (λ (x : Treasure). not (str_eq x.id id)) ts

-- The responses that say that a treasure has moved on or is another's.
abbrev pub is_gone : Option ℕ → Bool
is_gone none = false
is_gone (some status) = status == 410 || status == 409 || status == 404

unfoldable pub notice_of : Found → Notice
notice_of res =
    if str_eq res.type "roaming" && is_text res.species_german
    then sighting res.species_german res.value (res.value / 2)
    else if (str_eq res.type "species" || str_eq res.type "n2k_species")
        && is_text res.species_german
    then species_found (str_eq res.type "n2k_species") res.species_german res.value
    else treasure res.type res.value

-- `heraldTells`
unfoldable pub herald_tells : Page → Bool
unfolding enhanced_loaded has
herald_tells g =
    not g.tall_unlocked
    && enhanced_loaded g.kgs_loaded g.enhanced
    && not (has "trees_unlocked" g.herald_seen)

-- What the first treasure brings.
unfoldable pub unlock_calls : Page → List Call
unfolding herald_tells
unlock_calls g =
    call_if (herald_tells g) (later 1200 (hints "trees_unlocked"))
    ++ (if g.tall_unlocked
        then []
        else loads_giants
          ∷ call_if (ltb 0 g.tall_trees && not (herald_tells g)) (later 1200 (says ok rumour)))

unfoldable pub claim_treasure_reply : Treasure → Reply Found → Page → Run
unfolding notice_of unlock_calls
claim_treasure_reply t (refused e status) g =
    if is_gone status
    then record {
      page = record g { treasures = without t.id g.treasures };
      calls = says err (error e) ∷ renders ∷ [];
      ends = returns;
    }
    else record { page = g; calls = says err (error e) ∷ []; ends = returns }
claim_treasure_reply t (granted res) g = record {
  page = record g {
    player = res.player;
    treasures = without t.id g.treasures;
    beacon_rounds = 0;
    tall_unlocked = true;
  };
  calls =
      says ok (notice_of res) ∷ updates_stats ∷ treasure_fx t.id res.value ∷ unlock_calls g
      ++ renders ∷ loads_challenges ∷ [];
  ends = returns;
}
