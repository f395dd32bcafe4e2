-- ===== src/Actions/Market.antt =====
-- srv/static/game.js: `doSell`, `doClaimEZ`, `doMakeOffer` and `doRespondOffer`.
use Prim.Native.String.{◌++◌ as append}
use siedler_sterreich.Prelude.{
  ℕ, String, Bool, true, false, not, ◌&&◌, ◌||◌, List, [], ◌∷◌, ◌++◌, Option, none, some, ltb, ◌==◌,
  str_eq, find, is_some, if◌then◌else◌,
}
use siedler_sterreich.Prelude.Int.{ℤ, pos, negsuc}
use siedler_sterreich.Landuse.Code.{extract_lu_code}
use siedler_sterreich.Landuse.Water.{Frac}
use siedler_sterreich.Claims.{is_text}
use siedler_sterreich.Folio.{Parcel, group}
use siedler_sterreich.Regrowth.Field.{parcel_crop}
use siedler_sterreich.Toasts.{ok, err}
use siedler_sterreich.Actions.{
  Player, Selected, Held, Page, Call, FolioRow, Run, Reply, refused, granted, pid_of, percent,
  is_part, refuse, ask, ignore, says, deal_fx, updates_stats, renders, loads_challenges,
  shows_popup, opens_ez, resets_popup, sell, sold, folio, nothing_free, too_low, too_dear,
  offer_sent, offer_accepted, offer_declined, returns, waits, sell_parcel, claim_ez, offer_parcel,
  offer_respond, claims, offers, claims_and_offers,
}
use siedler_sterreich.Actions.Land.{show_selected}

pub record Sold : Type 0 where
  pub sell_price : ℕ
  pub regen : Option Frac
  pub xp_lost : ℕ
  pub player : Player

pub record FolioTaken : Type 0 where
  pub claimed_count : ℕ
  pub discount : ℕ
  pub player : Player

-- `doSell(claimId)`: the sale of a protected parcel has to be confirmed.
abbrev pub is_protected : Option Held → Bool
is_protected none = false
is_protected (some c) = is_text c.claim.converted_to

abbrev crop_of : Option Selected → String
crop_of none = ""
crop_of (some f) = parcel_crop f.plot.field

abbrev pid_of_sel : Option Selected → Option String
pid_of_sel none = none
pid_of_sel (some f) = some (pid_of f)

unfoldable pub do_sell : Bool → ℕ → Page → Run
do_sell confirmed claim_id g =
    if is_protected (find (λ (c : Held). c.id == claim_id) g.claimed) && not confirmed
    then ignore g
    else ask (sell_parcel claim_id (pid_of_sel g.sel) (crop_of g.sel)) g

abbrev pub sale_call : Option Selected → ℕ → List Call
sale_call none price = []
sale_call (some f) price = deal_fx sell f price ∷ []

abbrev value_share : Option Frac → Option ℕ
value_share none = none
value_share (some share) = if is_part (some share) then some (percent share) else none

-- `sel` is the selection at the request.
unfoldable pub do_sell_reply : Option Selected → Reply Sold → Page → Run
do_sell_reply sel (refused e status) g = refuse e g
do_sell_reply sel (granted res) g = record {
  page = record g { player = res.player };
  calls =
      sale_call sel res.sell_price
      ++ says ok (sold res.sell_price (value_share res.regen) res.xp_lost) ∷ updates_stats ∷ [];
  ends = waits claims;
}

unfoldable pub do_sell_rest : Page → Run
do_sell_rest g = record {
  page = record g {
    parcel_popup_open = false;
    ez_popup_open = false;
    sel = none;
    ez_highlight = none;
  };
  calls = renders ∷ resets_popup "parcel-popup" ∷ resets_popup "ez-popup" ∷ [];
  ends = returns;
}

-- `claimMap[id]`, whether a claim has the parcel; a claim that is not resolved has no `parcel_id`.
unfoldable pub is_claimed : String → List Held → Bool
is_claimed pid [] = false
is_claimed pid (c ∷ cs) =
    (is_text c.claim.names.parcel_id && str_eq c.claim.names.parcel_id pid) || is_claimed pid cs

unfoldable pub unclaimed : List Held → List Parcel → List Parcel
unfolding is_claimed
unclaimed held [] = []
unclaimed held (p ∷ ps) =
    let rest = unclaimed held ps in if is_claimed p.parcel_id held then rest else p ∷ rest

abbrev pub folio_row : Parcel → FolioRow
folio_row p = record {
  parcel_id = p.parcel_id;
  gnr = p.facts.gnr;
  area_sqm = p.facts.area_sqm;
  landuse = extract_lu_code "" p.facts.lu;
  building_count = p.facts.building_count;
  total_building_area = p.facts.total_building_area_sqm;
}

unfoldable pub folio_rows : List Parcel → List FolioRow
unfolding extract_lu_code
folio_rows [] = []
folio_rows (p ∷ ps) = folio_row p ∷ folio_rows ps

unfoldable pub ask_folio : String → String → Page → List Parcel → Run
unfolding folio_rows
ask_folio kg_code ez g [] = record { page = g; calls = says err nothing_free ∷ []; ends = returns }
ask_folio kg_code ez g (p ∷ ps) = ask (claim_ez kg_code ez (folio_rows (p ∷ ps))) g

-- `doClaimEZ(kgCode, ez)`
unfoldable pub do_claim_ez : String → String → Page → Run
unfolding unclaimed ask_folio
do_claim_ez kg_code ez g =
    ask_folio kg_code ez g
      (unclaimed g.claimed (group (append kg_code (append "-EZ" ez)) g.ez_index))

unfoldable pub do_claim_ez_reply : Reply FolioTaken → Page → Run
do_claim_ez_reply (refused e status) g = refuse e g
do_claim_ez_reply (granted res) g = record {
  page = record g { player = res.player };
  calls = says ok (folio res.claimed_count res.discount) ∷ updates_stats ∷ [];
  ends = waits claims;
}

-- `if (G.sel) showParcelPopup(G.sel);`
abbrev pub show_again : Option Selected → List Call
show_again none = []
show_again (some f) = shows_popup f ∷ []

unfoldable pub do_claim_ez_rest : String → String → Page → Run
do_claim_ez_rest kg_code ez g = record {
  page = record g { parcel_popup_open = is_some g.sel || g.parcel_popup_open };
  calls =
      renders ∷ show_again g.sel
      ++ ((if g.ez_popup_open then opens_ez kg_code ez ∷ [] else []) ++ loads_challenges ∷ []);
  ends = returns;
}

-- The amount in the field: `none` when there is no field, and none of `parseInt` when it is no number.
unfoldable pub do_make_offer : Option (Option ℤ) → Page → Run
do_make_offer typed g = elim g.sel [
  | none ↦ ignore g
  | some f ↦ elim typed [ none ↦ ignore g | some amount ↦ offered f amount ]
]
  where
    stopped : Run
    stopped = record { page = g; calls = says err too_low ∷ []; ends = returns }

    offered : Selected → Option ℤ → Run
    offered f none = stopped
    offered f (some (negsuc n)) = stopped
    offered f (some (pos n)) =
        if ltb n 10
        then stopped
        else if ltb g.player.coins n
        then record { page = g; calls = says err (too_dear g.player.coins) ∷ []; ends = returns }
        else ask (offer_parcel (pid_of f) n) g

unfoldable pub do_make_offer_reply : ℕ → Reply Unit → Page → Run
do_make_offer_reply price (refused e status) g = refuse e g
do_make_offer_reply price (granted res) g = record {
  page = g;
  calls = says ok (offer_sent price) ∷ [];
  ends = waits offers;
}

unfoldable pub do_make_offer_rest : Page → Run
unfolding show_selected
do_make_offer_rest g = show_selected [] [] g

-- `doRespondOffer(offerId, accept)`
abbrev pub do_respond_offer : ℕ → Bool → Page → Run
do_respond_offer offer_id accept g = ask (offer_respond offer_id accept) g

-- The reply carries the seller, if the sale went through.
abbrev pub seller_of : Option Player → Player → Player
seller_of none player = player
seller_of (some seller) player = seller

unfoldable pub do_respond_offer_reply : Bool → Reply (Option Player) → Page → Run
do_respond_offer_reply accept (refused e status) g = refuse e g
do_respond_offer_reply true (granted seller) g = record {
  page = record g { player = seller_of seller g.player };
  calls = says ok offer_accepted ∷ updates_stats ∷ [];
  ends = waits claims_and_offers;
}
do_respond_offer_reply false (granted seller) g = record {
  page = g;
  calls = says ok offer_declined ∷ updates_stats ∷ [];
  ends = waits claims_and_offers;
}

unfoldable pub do_respond_offer_rest : Page → Run
do_respond_offer_rest g = record {
  page = record g { parcel_popup_open = is_some g.sel || g.parcel_popup_open };
  calls = renders ∷ show_again g.sel;
  ends = returns;
}
