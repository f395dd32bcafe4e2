-- ===== src/Actions.antt =====
-- srv/static/game.js: what the player does with parcels, offers and treasures (`doClaim` to `claimTreasure`,
-- `doHarvestForest`, `doDigWell`). A handler is cut at its `await`s: each piece is a function of the page as it is
-- then, and what it has caught of the page before. `Land`, `Market` and `Hunt` hold the pieces.
pub mod Land
pub mod Market
pub mod Hunt
pub mod Answers
use siedler_sterreich.Prelude.{
  ℕ, ◌*◌, String, Bool, false, List, [], ◌∷◌, Option, none, some, ltb, if◌then◌else◌,
}
use siedler_sterreich.Geometry.{LonLat}
use siedler_sterreich.Regrowth.Value.{Plot, round_frac}
use siedler_sterreich.Landuse.Water.{Frac}
use siedler_sterreich.Claims.{Claim}
use siedler_sterreich.Folio.{Parcel, Index}
use siedler_sterreich.Toasts.{Kind, err}

pub record Player : Type 0 where
  pub id : String
  pub coins : ℕ

-- A feature that can be selected: `spot` is its `featureLonLat`, `organic` a trait of the field on it, `station` says
-- whether a gauge stands on it, `tall_count` and `tall_max_h` are the giants on it.
pub record Selected : Type 0 where
  pub parcel : Parcel
  pub plot : Plot
  pub spot : Option LonLat
  pub organic : Bool
  pub station : Bool
  pub tall_count : ℕ
  pub tall_max_h : ℕ

abbrev pub pid_of : Selected → String
pid_of f = f.parcel.parcel_id

-- An entry of `G.claimed`.
pub record Held : Type 0 where
  pub id : ℕ
  pub claim : Claim

pub record Treasure : Type 0 where
  pub id : String
  pub treasure_type : String

-- What the handlers read and write of `G` and of the page. `field_eco`, `forest_values` and `scenes` are the keys of
-- caches; `tall_trees` is the number of giants that are known.
pub record Page : Type 0 where
  pub player : Player
  pub sel : Option Selected
  pub ez_highlight : Option String
  pub claimed : List Held
  pub ez_index : Index
  pub parcel_popup_open : Bool
  pub ez_popup_open : Bool
  pub field_eco : List String
  pub forest_values : List String
  pub scenes : List String
  pub treasures : List Treasure
  pub beacon_rounds : ℕ
  pub tall_revealed : Bool
  pub tall_unlocked : Bool
  pub tall_trees : ℕ
  pub kgs_loaded : List String
  pub enhanced : List String
  pub herald_seen : List String

-- What a notice tells; the page makes the words. Shares of the value are in percent.
pub data Notice : Type 0 where
  error : String → Notice
  bought : (price tall_bonus : ℕ) → Notice
  regrowing : (percent : ℕ) → Notice
  tracker gauge_keeper : (bonus : ℕ) → Notice
  harvest : (coins xp : ℕ) → Notice
  timber : (efm coins xp : ℕ) → Notice
  drinking_water : Notice
  wild_forest restored converted : (xp : ℕ) → Notice
  well : (xp : ℕ) → Notice
  sold : (price : ℕ) → (percent : Option ℕ) → (xp_lost : ℕ) → Notice
  folio : (count discount : ℕ) → Notice
  nothing_free too_low : Notice
  too_dear : (coins : ℕ) → Notice
  offer_sent : (price : ℕ) → Notice
  offer_accepted offer_declined : Notice
  sighting : (species : String) → (value bonus : ℕ) → Notice
  species_found : (n2k : Bool) → (species : String) → (value : ℕ) → Notice
  treasure : (type : String) → (value : ℕ) → Notice
  rumour : Notice

pub data Deal : Type 0 where
  buy sell : Deal

-- What a handler calls, in order; `later ms` is `setTimeout`.
pub data Call : Type 0 where
  says : Kind → Notice → Call
  later : ℕ → Call → Call
  deal_fx : Deal → Selected → ℕ → Call
  collect_fx : Option LonLat → ℕ → Call
  treasure_fx : String → ℕ → Call
  updates_stats renders invalidates_base loads_challenges loads_giants : Call
  shows_popup : Selected → Call
  opens_ez : (kg_code ez : String) → Call
  resets_popup : String → Call
  hints : String → Call

-- A row of the request for a folio.
pub record FolioRow : Type 0 where
  pub parcel_id : String
  pub gnr : String
  pub area_sqm : ℕ
  pub landuse : String
  pub building_count : ℕ
  pub total_building_area : ℕ

-- What is waited for: a reply of the server to a request with what the handler puts into it, or a list to be loaded.
pub data Request : Type 0 where
  claim_parcel : Selected → (landuse crop : String) → (tall_count tall_max_h : ℕ) → Request
  harvest_parcel : (parcel_id crop : String) → (organic : Bool) → Request
  harvest_forest : (parcel_id : String) → Request
  convert_parcel : (parcel_id convert_to : String) → Option LonLat → Request
  dig_well : (parcel_id : String) → Option LonLat → Request
  sell_parcel : (claim_id : ℕ) → (parcel_id : Option String) → (crop : String) → Request
  claim_ez : (kg_code ez : String) → List FolioRow → Request
  offer_parcel : (parcel_id : String) → (price : ℕ) → Request
  offer_respond : (offer_id : ℕ) → (accept : Bool) → Request
  claim_treasure : (treasure_id : String) → Request
  claims bio offers claims_and_offers : Request

-- How a piece ends: the handler returns, throws, or waits.
pub data Ends : Type 0 where
  returns throws : Ends
  waits : Request → Ends

pub record Run : Type 0 where
  pub page : Page
  pub calls : List Call
  pub ends : Ends

-- A reply of the server: an error with the status of the response, or what the handler hopes for.
pub data Reply (R : Type 0) : Type 0 where
  refused : String → Option ℕ → Reply R
  granted : R → Reply R

-- `Math.round(share * 100)`
abbrev pub percent : Frac → ℕ
percent share = round_frac (100 * share.num) share.den

-- `share < 1`, also of a share that is absent.
abbrev pub is_part : Option Frac → Bool
is_part none = false
is_part (some share) = ltb share.num share.den

abbrev pub call_if : Bool → Call → List Call
call_if b call = if b then call ∷ [] else []

-- `toast(res.error, 'err'); return;`
abbrev pub refuse : String → Page → Run
refuse e g = record { page = g; calls = says err (error e) ∷ []; ends = returns }

abbrev pub ask : Request → Page → Run
ask request g = record { page = g; calls = []; ends = waits request }

abbrev pub ignore : Page → Run
ignore g = record { page = g; calls = []; ends = returns }
