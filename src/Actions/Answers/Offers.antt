-- ===== src/Actions/Answers/Offers.antt =====
-- The offers that `doMakeOffer` lets through.
use siedler_sterreich.Prelude.{
  ℕ, ◌+◌, Bool, true, false, ◌&&◌, List, [], ◌∷◌, Option, none, some, is_some, leb, ◌==◌, ◌≡◌,
  arith, if◌then◌else◌,
}
use siedler_sterreich.Prelude.Int.{ℤ, pos, negsuc}
use siedler_sterreich.Toasts.{err}
use siedler_sterreich.Actions.{Page, Call, Ends, says, returns, throws, waits, offer_parcel}
use siedler_sterreich.Actions.Market.{do_make_offer}

-- Whether an offer of just this price is sent.
abbrev pub offers_price : ℕ → Ends → Bool
offers_price price returns = false
offers_price price throws = false
offers_price price (waits (offer_parcel pid n)) = n == price
offers_price price (waits _) = false

abbrev pub is_amount : ℕ → Option (Option ℤ) → Bool
is_amount price none = false
is_amount price (some none) = false
is_amount price (some (some (pos n))) = n == price
is_amount price (some (some (negsuc n))) = false

abbrev pub is_waiting : Ends → Bool
is_waiting returns = false
is_waiting throws = false
is_waiting (waits _) = true

abbrev pub complaints : List Call → ℕ
complaints [] = 0
complaints (says err notice ∷ calls) = 1 + complaints calls
complaints (_ ∷ calls) = complaints calls

-- doMakeOffer sends an offer of a price exactly if a parcel is selected, the field holds that price, and it lies
-- between 10 coins and what the player has; with a parcel and a field there is either a request or one complaint, and
-- without one of them there is neither.
pub do_make_offer-bounds :
    (price : ℕ) (typed : Option (Option ℤ)) (g : Page)
    → (offers_price price (do_make_offer typed g).ends
        ≡ (is_some g.sel && is_amount price typed && leb 10 price && leb price g.player.coins))
      × ((if is_waiting (do_make_offer typed g).ends then 1 else 0)
            + complaints (do_make_offer typed g).calls
          ≡ (if is_some g.sel && is_some typed then 1 else 0))
unfolding do_make_offer
do_make_offer-bounds price none g = ground arith
do_make_offer-bounds price (some none) g = ground arith
do_make_offer-bounds price (some (some (negsuc n))) g = ground arith
do_make_offer-bounds price (some (some (pos n))) g = ground arith
