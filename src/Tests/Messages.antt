-- ===== src/Tests/Messages.antt =====
-- A message about a sale by another player, two beacons that ask, and a registry of two communities.
use siedler_sterreich.Prelude.{
  String, Bool, true, false, not, ◌&&◌, ◌||◌, [], ◌∷◌, ◌++◌, none, some, is_some, codes, lookup,
  ◌≡◌,
}
use siedler_sterreich.Session.{Session, handle_event, parcel_sold, type_of, moves_coins}
use siedler_sterreich.Session.Follows.{loads_claims, moves_claims, handle_event-follows}
use siedler_sterreich.Beacon.{Beacon, beacon_frame_begin, beacon_turn}
use siedler_sterreich.Beacon.Paced.{
  came, changes, at_rest, opened, asks, frame, is_paced, is_attended, Reach-is_paced,
}
use siedler_sterreich.Enhanced.{KgRow, Registry, load_enhanced_registry}
use siedler_sterreich.Enhanced.Flags.{Joins, load_enhanced_registry-Joins}

abbrev session : Session
session = record {
  my_id = "1";
  my_name = "Resi";
  herald_there = true;
  chat_msgs = [];
  mode = "open";
  treasure_ids = [];
  refresh_timer = none;
}

handle_event-follows_example :
    (loads_claims (handle_event (parcel_sold "Sepp") session).1 ≡ moves_claims (parcel_sold "Sepp"))
    × (is_some (handle_event (parcel_sold "Sepp") session).0.refresh_timer
        ≡ (moves_coins (codes (type_of (parcel_sold "Sepp"))) || is_some session.refresh_timer))
    × ((moves_claims (parcel_sold "Sepp")
          && not (is_some (handle_event (parcel_sold "Sepp") session).0.refresh_timer))
        ≡ false)
handle_event-follows_example = handle_event-follows (parcel_sold "Sepp") session

abbrev shown : Beacon
shown = beacon_frame_begin 1000 (beacon_turn "tree" 0 900 at_rest).0

abbrev both_ask : Beacon
both_ask = (beacon_turn "treasure" 0 13900 (beacon_turn "tree" 0 13900 shown).0).0

-- The tree has been on show for 13 s, and the treasure asks.
Reach-is_paced_example :
    (is_paced (
        changes 14000 both_ask.asked both_ask.cur (beacon_frame_begin 14000 both_ask).cur
        ++ came "tree" 1000 ("tree" ∷ []) ∷ [])
      ≡ true)
    × (is_attended 14000 both_ask.asked (beacon_frame_begin 14000 both_ask).cur (
          changes 14000 both_ask.asked both_ask.cur (beacon_frame_begin 14000 both_ask).cur
          ++ came "tree" 1000 ("tree" ∷ []) ∷ [])
        ≡ true)
unfolding beacon_turn beacon_frame_begin changes
Reach-is_paced_example = Reach-is_paced 14000 both_ask (came "tree" 1000 ("tree" ∷ []) ∷ []) (
    asks "treasure" 0 13900 _ _
      (asks "tree" 0 13900 _ _ (frame 1000 _ _ (asks "tree" 0 900 _ _ opened))))

abbrev kg_row : String → Bool → KgRow
kg_row code v2 = record {
  kg_code = code;
  gemeinde_code = "31309";
  gemeinde_name = "Dürnstein";
  lon = 15;
  lat = 48;
  v2 = v2;
  v24 = false;
}

abbrev no_registry : Registry
no_registry = record { enhanced_kgs = []; v2_kgs = []; ne_kgs = []; by_gem = [] }

load_enhanced_registry-Joins_example :
    Joins "31309" (kg_row "12105" true ∷ kg_row "12117" false ∷ []) none (
      lookup "31309"
        (load_enhanced_registry
          (some (kg_row "12105" true ∷ kg_row "12117" false ∷ []))
          no_registry).by_gem)
load_enhanced_registry-Joins_example =
    load_enhanced_registry-Joins "31309" (kg_row "12105" true ∷ kg_row "12117" false ∷ [])
      no_registry
