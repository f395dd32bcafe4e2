-- ===== src/Search/Parcel/Requests.antt =====
-- All that `resolveParcelIntent` sends and waits for: its own rounds, and those inside each call of `GET`, which has the
-- budget of a `GET` without options.
use siedler_sterreich.Prelude.{ℕ, zero, suc, true, ◌+◌, ◌*◌, ◌≤◌, ◌<◌, Option, none, some, arith}
use siedler_sterreich.Geometry.{LonLat}
use siedler_sterreich.Api.{Exchange, Run, get, budget_of}
use siedler_sterreich.Api.Budget.{InBudget, api-InBudget}
use siedler_sterreich.Search.Parcel.{
  FindReply, total, resolve_parcel_intent, resolve_parcel_intent-ends,
}

module _ {ℓ} {A : Type ℓ} where
  abbrev pub requests_of : Option (Run A) → ℕ
  requests_of none = 0
  requests_of (some r) = r.requests

  abbrev pub waited_of : Option (Run A) → ℕ
  waited_of none = 0
  waited_of (some r) = r.waited

  -- The requests of the first calls of `GET`, and the time that they wait between these; call `i` has the exchanges
  -- `exchanges i`.
  pub requests_in : (ℕ → ℕ → Exchange A) → ℕ → ℕ
  requests_in exchanges zero = 0
  requests_in exchanges (suc n) = requests_in exchanges n + requests_of (get (exchanges n))

  pub waited_in : (ℕ → ℕ → Exchange A) → ℕ → ℕ
  waited_in exchanges zero = 0
  waited_in exchanges (suc n) = waited_in exchanges n + waited_of (get (exchanges n))

  InBudget-bounds :
      (o : Option (Run A)) → InBudget 45000 o → (requests_of o ≤ 9) × (waited_of o ≤ 45000)
  InBudget-bounds none i = absurd i
  InBudget-bounds (some r) i = (i.1, i.2)

  get-bounds :
      (exchange : ℕ → Exchange A)
      → (requests_of (get exchange) ≤ 9) × (waited_of (get exchange) ≤ 45000)
  unfolding get budget_of
  get-bounds exchange = InBudget-bounds (get exchange) (api-InBudget true none exchange)

  in-bounds :
      (exchanges : ℕ → ℕ → Exchange A) (n : ℕ)
      → (requests_in exchanges n ≤ 9 * n) × (waited_in exchanges n ≤ 45000 * n)
  unfolding requests_in waited_in
  in-bounds exchanges zero = (omega arith, omega arith)
  in-bounds exchanges (suc n) =
      let e = in-bounds exchanges n in
      let g = get-bounds (exchanges n) in (omega (arith, e.0, g.0), omega (arith, e.1, g.1))

  -- Whatever the server sends to each request and however long that takes, and however `read` tells the results of the
  -- calls of `GET` apart, the search for a parcel ends after at most twenty calls of `GET`, which together send at most
  -- 180 requests and wait between these for at most 900 s; and its own waits between the calls are together shorter
  -- than 66 s.
  pub resolve_parcel_intent-InTime :
      (loaded : Option LonLat) (exchanges : ℕ → ℕ → Exchange A)
      (read : ℕ → Option (Run A) → FindReply × ℕ)
      → ((resolve_parcel_intent loaded (λ i. read i (get (exchanges i)))).asked ≤ 20)
        × (total (resolve_parcel_intent loaded (λ i. read i (get (exchanges i)))).waits < 66000)
        × (requests_in exchanges
              (resolve_parcel_intent loaded (λ i. read i (get (exchanges i)))).asked
            ≤ 180)
        × (waited_in exchanges
              (resolve_parcel_intent loaded (λ i. read i (get (exchanges i)))).asked
            ≤ 900000)
  resolve_parcel_intent-InTime loaded exchanges read =
      let e = resolve_parcel_intent-ends loaded (λ i. read i (get (exchanges i))) in
      let b =
        in-bounds exchanges
          (resolve_parcel_intent loaded (λ i. read i (get (exchanges i)))).asked in
      (e.0, e.1, omega (arith, e.0, b.0), omega (arith, e.0, b.1))
