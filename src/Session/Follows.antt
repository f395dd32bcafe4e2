-- ===== src/Session/Follows.antt =====
-- The page follows every message: what may have changed is loaded, and the players' list comes after it.
use siedler_sterreich.Prelude.{
  String, Bool, true, false, not, ◌&&◌, ◌||◌, List, [], ◌∷◌, ◌++◌, is_some, str_eq, codes,
  starts_with, ◌≡◌, refl, ap, ◌∙◌, arith, if◌then◌else◌,
}
use siedler_sterreich.Toasts.{Kind, ok, err}
use siedler_sterreich.Session.{
  Message, Effect, bio, offers, Session, claimed, toasts, loads, type_of, moves_coins,
  schedule_players_refresh, changed, effects, about_others, only_if, handle_event, parcel_claimed,
  parcel_converted, parcel_sold, parcel_harvested, well_dug, ez_claimed, offer_accepted, chat,
  chat_hidden, chat_refresh, chat_mode, player_joined, challenge_completed, treasure_claimed,
  treasures_updated, offer_made, offer_rejected, offer_funds_needed, other,
}

abbrev pub loads_claims : List Effect → Bool
loads_claims [] = false
loads_claims (loads claimed ∷ es) = true
loads_claims (_ ∷ es) = loads_claims es

-- The messages that tell of a claim that is new, gone or otherwise.
abbrev pub moves_claims : Message → Bool
moves_claims (parcel_claimed _) = true
moves_claims (parcel_converted _) = true
moves_claims (parcel_sold _) = true
moves_claims (parcel_harvested _) = true
moves_claims (well_dug _) = true
moves_claims (ez_claimed _) = true
moves_claims (offer_accepted _ _) = true
moves_claims _ = false

changed-timer : (d : Message) (g : Session) → (changed d g).refresh_timer ≡ g.refresh_timer
unfolding changed
changed-timer (chat _ _ _ _) g = refl
changed-timer (chat_hidden _) g = refl
changed-timer (chat_mode _) g = refl
changed-timer (treasure_claimed _ _) g = refl
changed-timer _ g = refl

schedule_some :
    (b : Bool) (g : Session)
    → is_some (if b then schedule_players_refresh g else g).refresh_timer
      ≡ (b || is_some g.refresh_timer)
schedule_some b g = ground arith

others-claims :
    (g : Session) (player : String) (es : List Effect)
    → loads_claims (about_others g player ++ es) ≡ loads_claims es
others-claims g player es = ground arith

only_if-claims :
    (b : Bool) (k : Kind) (quiet : Bool) (es : List Effect)
    → loads_claims (only_if b (toasts k quiet ∷ []) ++ es) ≡ loads_claims es
only_if-claims b k quiet es = ground arith

effects-claims : (d : Message) (g : Session) → loads_claims (effects d g) ≡ moves_claims d
unfolding effects
effects-claims (chat _ _ _ _) g = refl
effects-claims (chat_hidden _) g = refl
effects-claims chat_refresh g = refl
effects-claims (chat_mode _) g = refl
effects-claims (player_joined _) g = refl
effects-claims (parcel_claimed player) g = others-claims g player (loads claimed ∷ [])
effects-claims (parcel_converted player) g = others-claims g player (loads claimed ∷ loads bio ∷ [])
effects-claims (parcel_sold player) g = others-claims g player (loads claimed ∷ [])
effects-claims (parcel_harvested player) g = others-claims g player (loads claimed ∷ [])
effects-claims (well_dug player) g = others-claims g player (loads claimed ∷ [])
effects-claims (ez_claimed player) g = others-claims g player (loads claimed ∷ [])
effects-claims (challenge_completed a b) g = ground arith
effects-claims (treasure_claimed a b) g = ground arith
effects-claims (treasures_updated _) g = refl
effects-claims (offer_made seller_id) g =
    only_if-claims (str_eq seller_id g.my_id) ok false (loads offers ∷ [])
effects-claims (offer_accepted _ _) g = refl
effects-claims (offer_rejected buyer_id) g =
    only_if-claims (str_eq buyer_id g.my_id) err false (loads offers ∷ [])
effects-claims (offer_funds_needed a) g = ground arith
effects-claims (other _) g = refl

claims-coins : (d : Message) → (moves_claims d && not (moves_coins (codes (type_of d)))) ≡ false
unfolding moves_coins starts_with
claims-coins (chat _ _ _ _) = refl
claims-coins (chat_hidden _) = refl
claims-coins chat_refresh = refl
claims-coins (chat_mode _) = refl
claims-coins (player_joined _) = refl
claims-coins (parcel_claimed _) = refl
claims-coins (parcel_converted _) = refl
claims-coins (parcel_sold _) = refl
claims-coins (parcel_harvested _) = refl
claims-coins (well_dug _) = refl
claims-coins (ez_claimed _) = refl
claims-coins (challenge_completed _ _) = refl
claims-coins (treasure_claimed _ _) = refl
claims-coins (treasures_updated _) = refl
claims-coins (offer_made _) = refl
claims-coins (offer_accepted _ _) = refl
claims-coins (offer_rejected _) = refl
claims-coins (offer_funds_needed _) = refl
claims-coins (other _) = refl

runs : (a b c t : Bool) → t ≡ (b || c) → (a && not b) ≡ false → (a && not t) ≡ false
runs a b c t e h = ground arith

-- A message leads to a new load of the claims exactly if it tells of a claim that is new, gone or otherwise; the
-- timer for the list of players runs afterwards exactly if it ran before or the message's type has one of the listed
-- beginnings; and this is so for every message that moves claims.
pub handle_event-follows :
    (d : Message) (g : Session)
    → (loads_claims (handle_event d g).1 ≡ moves_claims d)
      × (is_some (handle_event d g).0.refresh_timer
          ≡ (moves_coins (codes (type_of d)) || is_some g.refresh_timer))
      × ((moves_claims d && not (is_some (handle_event d g).0.refresh_timer)) ≡ false)
unfolding handle_event
handle_event-follows d g =
    let timer : is_some (handle_event d g).0.refresh_timer
        ≡ (moves_coins (codes (type_of d)) || is_some g.refresh_timer) =
      ap is_some (
        changed-timer d (if moves_coins (codes (type_of d)) then schedule_players_refresh g else g))
      ∙ schedule_some (moves_coins (codes (type_of d))) g in
    (
      effects-claims d g,
      timer,
      runs (moves_claims d) (moves_coins (codes (type_of d))) (is_some g.refresh_timer)
          (is_some (handle_event d g).0.refresh_timer) timer (claims-coins d),
    )
