-- ===== src/Actions/Answers.antt =====
-- What an answer of the server does to the player's purse, whatever has been selected or closed meanwhile.
pub mod Folio
pub mod Offers
pub mod Trees
use siedler_sterreich.Prelude.{
  ℕ, String, Bool, true, false, not, ◌&&◌, Option, none, some, is_some, str_eq, ◌≡◌, refl, arith,
  if◌then◌else◌,
}
use siedler_sterreich.Actions.{
  Player, Selected, Treasure, Page, Run, Reply, refused, granted, Ends, throws, returns, waits,
}
use siedler_sterreich.Actions.Land.{
  Bought, Harvested, Converted, Dug, do_claim_reply, do_harvest_reply, do_harvest_forest_reply,
  do_convert_reply, do_dig_well_reply,
}
use siedler_sterreich.Actions.Market.{
  Sold, FolioTaken, do_sell_reply, do_claim_ez_reply, do_make_offer_reply, do_respond_offer_reply,
}
use siedler_sterreich.Actions.Hunt.{Found, claim_treasure_reply, is_gone}

-- The player that an answer carries.
abbrev pub sent : {R : Type 0} → (R → Option Player) → Reply R → Option Player
sent player_in (refused e status) = none
sent player_in (granted res) = player_in res

-- The handler's piece after an answer: `Answer k sent g r` says that with the selection in `g` it makes `r`; `k` says
-- whether it reads the selection before it takes the player over.
pub data Answer (g : Page) : Bool → Option Player → Run → Type 0 where
  claimed :
      (a : Reply Bought) → Answer g false (sent (λ res. some res.player) a) (do_claim_reply a g)
  harvested :
      (p : Selected) (a : Reply Harvested)
      → Answer g true (sent (λ res. some res.player) a) (do_harvest_reply p a g)
  cut :
      (p : Selected) (a : Reply Harvested)
      → Answer g true (sent (λ res. some res.player) a) (do_harvest_forest_reply p a g)
  converted :
      (to : String) (a : Reply Converted)
      → Answer g
          (str_eq to "wildforest")
          (sent (λ res. some res.player) a)
          (do_convert_reply to a g)
  dug :
      (p : Selected) (a : Reply Dug)
      → Answer g false (sent (λ res. some res.player) a) (do_dig_well_reply p a g)
  sold :
      (sel : Option Selected) (a : Reply Sold)
      → Answer g false (sent (λ res. some res.player) a) (do_sell_reply sel a g)
  folio_taken :
      (a : Reply FolioTaken)
      → Answer g false (sent (λ res. some res.player) a) (do_claim_ez_reply a g)
  offered :
      (price : ℕ) (a : Reply Unit)
      → Answer g false (sent (λ _. none) a) (do_make_offer_reply price a g)
  responded :
      (accept : Bool) (a : Reply (Option Player))
      → Answer g false
          (sent (λ seller. if accept then seller else none) a)
          (do_respond_offer_reply accept a g)
  found :
      (t : Treasure) (a : Reply Found)
      → Answer g false (sent (λ res. some res.player) a) (claim_treasure_reply t a g)

-- The answer that is lost: one that carries the player, to a piece that reads a selection that is gone.
abbrev pub is_lost : Bool → Option Player → Page → Bool
is_lost reads sent g = reads && is_some sent && not (is_some g.sel)

abbrev pub purse_after : Option Player → Player → Player
purse_after none player = player
purse_after (some p) player = p

abbrev pub is_thrown : Ends → Bool
is_thrown throws = true
is_thrown returns = false
is_thrown (waits _) = false

-- After every answer the purse is the one that the server sent, or as before where it sent none, and the handler goes
-- on; but an answer that comes when nothing is selected any more makes a harvest, a felling and a conversion to wild
-- forest throw, and then the purse stays as it was before.
pub Answer-player :
    {reads : Bool} {s : Option Player} {r : Run} (g : Page) (a : Answer g reads s r)
    → (r.page.player ≡ (if is_lost reads s g then g.player else purse_after s g.player))
      × (is_thrown r.ends ≡ is_lost reads s g)
unfolding do_claim_reply do_harvest_reply do_harvest_forest_reply do_convert_reply do_dig_well_reply
    do_sell_reply do_claim_ez_reply do_make_offer_reply do_respond_offer_reply claim_treasure_reply
Answer-player g (claimed (refused e status)) = (refl, refl)
Answer-player g (claimed (granted res)) = (refl, refl)
Answer-player g (harvested p (refused e status)) = (refl, refl)
Answer-player g (harvested p (granted res)) = ground arith
Answer-player g (cut p (refused e status)) = (refl, refl)
Answer-player g (cut p (granted res)) = ground arith
Answer-player g (converted to (refused e status)) = ground arith
Answer-player g (converted to (granted res)) = ground arith
Answer-player g (dug p (refused e status)) = (refl, refl)
Answer-player g (dug p (granted res)) = (refl, refl)
Answer-player g (sold sel (refused e status)) = (refl, refl)
Answer-player g (sold sel (granted res)) = (refl, refl)
Answer-player g (folio_taken (refused e status)) = (refl, refl)
Answer-player g (folio_taken (granted res)) = (refl, refl)
Answer-player g (offered price (refused e status)) = (refl, refl)
Answer-player g (offered price (granted res)) = (refl, refl)
Answer-player g (responded accept (refused e status)) = (refl, refl)
Answer-player g (responded true (granted none)) = (refl, refl)
Answer-player g (responded true (granted (some p))) = (refl, refl)
Answer-player g (responded false (granted seller)) = (refl, refl)
Answer-player g (found t (refused e status)) = ground arith
Answer-player g (found t (granted res)) = (refl, refl)
