-- ===== src/Session.antt =====
-- srv/static/game.js: `handleEvent`, what a message of the server's stream changes and asks for.
pub mod Follows
use siedler_sterreich.Prelude.{
  ℕ, String, Bool, true, false, not, ◌&&◌, ◌||◌, List, [], ◌∷◌, ◌++◌, Option, none, some, is_some,
  str_eq, any, codes, starts_with, Text, if◌then◌else◌,
}
use siedler_sterreich.Toasts.{Kind, ok, err, info}

-- A message, with what the handler reads of it. A player is named, an `…_id` is a number of the database as a text.
pub data Message : Type 0 where
  chat : (id player_id player message : String) → Message
  chat_hidden : (id : String) → Message
  chat_refresh : Message
  chat_mode : (mode : String) → Message
  player_joined : (player : String) → Message
  parcel_claimed parcel_converted parcel_sold parcel_harvested well_dug ez_claimed :
      (player : String) → Message
  challenge_completed : (player title : String) → Message
  treasure_claimed : (id player_id : String) → Message
  treasures_updated : (roam : Bool) → Message
  offer_made : (seller_id : String) → Message
  offer_accepted : (buyer_id seller_id : String) → Message
  offer_rejected offer_funds_needed : (buyer_id : String) → Message
  -- A type that the handler's `switch` has no case for.
  other : (type : String) → Message

-- What the handler loads, most of it again.
pub data Request : Type 0 where
  claimed players chat_list offers challenges treasures bio own_stats own_player : Request

-- Besides changes of the state: a toast of a kind, quiet or not, whose text the page composes; a request; a word to
-- the herald.
pub data Effect : Type 0 where
  toasts : Kind → Bool → Effect
  loads : Request → Effect
  celebrates : String → Effect

pub record ChatMsg : Type 0 where
  pub id : String
  pub player_id : String
  pub player_name : String
  pub message : String
  pub hidden : Bool

-- The part of `G` that messages change or that the handler reads; `refresh_timer` is `_playersRefreshT`.
pub record Session : Type 0 where
  pub my_id : String
  pub my_name : String
  pub herald_there : Bool
  pub chat_msgs : List ChatMsg
  pub mode : String
  pub treasure_ids : List String
  pub refresh_timer : Option ℕ

-- `d.type`
abbrev pub type_of : Message → String
type_of (chat _ _ _ _) = "chat"
type_of (chat_hidden _) = "chat_hidden"
type_of chat_refresh = "chat_refresh"
type_of (chat_mode _) = "chat_mode"
type_of (player_joined _) = "player_joined"
type_of (parcel_claimed _) = "parcel_claimed"
type_of (parcel_converted _) = "parcel_converted"
type_of (parcel_sold _) = "parcel_sold"
type_of (parcel_harvested _) = "parcel_harvested"
type_of (well_dug _) = "well_dug"
type_of (ez_claimed _) = "ez_claimed"
type_of (challenge_completed _ _) = "challenge_completed"
type_of (treasure_claimed _ _) = "treasure_claimed"
type_of (treasures_updated _) = "treasures_updated"
type_of (offer_made _) = "offer_made"
type_of (offer_accepted _ _) = "offer_accepted"
type_of (offer_rejected _) = "offer_rejected"
type_of (offer_funds_needed _) = "offer_funds_needed"
type_of (other type) = type

-- The test `/^(parcel_|ez_claimed|well_dug|offer_accepted|treasure_)/`
unfoldable pub moves_coins : Text → Bool
unfolding starts_with
moves_coins type = any (starts_with type) (
    codes "parcel_"
    ∷ codes "ez_claimed"
    ∷ codes "well_dug"
    ∷ codes "offer_accepted"
    ∷ codes "treasure_"
    ∷ [])

-- `schedulePlayersRefresh`
abbrev pub schedule_players_refresh : Session → Session
schedule_players_refresh g =
    if is_some g.refresh_timer then g else record g { refresh_timer = some 3000 }

unfoldable pub hide : String → List ChatMsg → List ChatMsg
hide id [] = []
hide id (m ∷ ms) = (if str_eq m.id id then record m { hidden = true } else m) ∷ hide id ms

-- `findIndex` and `splice`: the first one goes.
unfoldable pub drop_first : String → List String → List String
drop_first id [] = []
drop_first id (t ∷ ts) = let rest = drop_first id ts in if str_eq t id then ts else t ∷ rest

abbrev pub about_others : Session → String → List Effect
about_others g player = if str_eq player g.my_name then [] else toasts info true ∷ []

abbrev pub only_if : Bool → List Effect → List Effect
only_if b es = if b then es else []

-- The state after the `switch`.
unfoldable pub changed : Message → Session → Session
unfolding hide drop_first
changed (chat id player_id player message) g = record g {
  chat_msgs =
      g.chat_msgs
      ++ record {
        id = id;
        player_id = player_id;
        player_name = player;
        message = message;
        hidden = false;
      }
        ∷ [];
}
changed (chat_hidden id) g = record g { chat_msgs = hide id g.chat_msgs }
changed (chat_mode mode) g = record g { mode = mode }
changed (treasure_claimed id _) g = record g { treasure_ids = drop_first id g.treasure_ids }
changed _ g = g

-- What the `switch` does besides.
unfoldable pub effects : Message → Session → List Effect
effects chat_refresh g = loads chat_list ∷ []
effects (chat_mode _) g = toasts info false ∷ []
effects (player_joined _) g = toasts ok false ∷ loads players ∷ []
effects (parcel_claimed player) g = about_others g player ++ loads claimed ∷ []
effects (parcel_converted player) g = about_others g player ++ loads claimed ∷ loads bio ∷ []
effects (parcel_sold player) g = about_others g player ++ loads claimed ∷ []
effects (parcel_harvested player) g = about_others g player ++ loads claimed ∷ []
effects (well_dug player) g = about_others g player ++ loads claimed ∷ []
effects (ez_claimed player) g = about_others g player ++ loads claimed ∷ []
effects (challenge_completed player title) g =
    if str_eq player g.my_name
    then (if g.herald_there then celebrates title else toasts ok false)
      ∷ loads challenges
      ∷ loads own_stats
      ∷ []
    else toasts info true ∷ []
effects (treasure_claimed _ player_id) g =
    only_if (not (str_eq player_id g.my_id)) (toasts info true ∷ [])
effects (treasures_updated _) g = loads treasures ∷ toasts ok false ∷ []
effects (offer_made seller_id) g =
    only_if (str_eq seller_id g.my_id) (toasts ok false ∷ []) ++ loads offers ∷ []
effects (offer_accepted buyer_id seller_id) g =
    toasts ok false
    ∷ loads claimed
    ∷ loads offers
    ∷ only_if (str_eq buyer_id g.my_id || str_eq seller_id g.my_id) (loads own_player ∷ [])
effects (offer_rejected buyer_id) g =
    only_if (str_eq buyer_id g.my_id) (toasts err false ∷ []) ++ loads offers ∷ []
effects (offer_funds_needed buyer_id) g = only_if (str_eq buyer_id g.my_id) (toasts err false ∷ [])
effects _ g = []

-- `handleEvent(d)`
unfoldable pub handle_event : Message → Session → Session × List Effect
unfolding moves_coins changed effects
handle_event d g = (
  changed d (if moves_coins (codes (type_of d)) then schedule_players_refresh g else g),
  effects d g,
)
