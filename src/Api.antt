-- ===== src/Api.antt =====
-- srv/static/game.js: `api`, the request that waits for a product that is still being fetched. Times
-- are in milliseconds, `retry_after_s` in whole seconds; `0` is an absent or zero number.
pub mod Budget
use siedler_sterreich.Prelude.{
  ℕ, zero, suc, ◌+◌, ◌*◌, min, max, Bool, true, false, ◌||◌, Option, none, some, ltb, leb, ◌==◌,
  or_else, if◌then◌else◌,
}

-- What one `fetch` gives: it throws, or the body cannot be read, or an answer with its body. A 202
-- carries `d.retry_after_s` (absent where its body is unreadable) and the `Retry-After` header.
pub data Response {ℓ} (A : Type ℓ) : Type ℓ where
  throws unreadable : Response A
  upstream_down : Option A → Response A
  accepted : Option A → ℕ → ℕ → Response A
  answered : A → Response A

-- What `api` returns or throws: the body as it came, the body (or an empty object) of a service that
-- is down, or the body of a 202, flagged `pending`.
pub data Result {ℓ} (A : Type ℓ) : Type ℓ where
  failed : Result A
  down : Option A → Result A
  pending : Option A → Result A
  body : A → Result A

-- A response and the time until it is read.
pub record Exchange {ℓ} (A : Type ℓ) : Type ℓ where
  pub response : Response A
  pub took : ℕ

-- `budget`: a GET waits for 45 seconds, nothing else waits, unless the caller says so.
unfoldable pub budget_of : Bool → Option ℕ → ℕ
budget_of is_get given = or_else given (if is_get then 45000 else 0)

abbrev or_number : ℕ → ℕ → ℕ
or_number n d = if n == 0 then d else n

-- `ra`: what the body says, else the header, else three seconds; between one and twelve.
unfoldable pub retry_ms : ℕ → ℕ → ℕ
retry_ms in_body in_header = min (max (or_number in_body (or_number in_header 3)) 1) 12 * 1000

-- What a call amounts to: its result, how many requests it sent, and how long it waited between them.
pub record Run {ℓ} (A : Type ℓ) : Type ℓ where
  pub result : Result A
  pub requests : ℕ
  pub waited : ℕ

abbrev ended {ℓ} : {A : Type ℓ} → ℕ → ℕ → Result A → Option (Run A)
ended attempt waited result =
    some (record { result = result; requests = attempt + 1; waited = waited })

-- One round, `elapsed` after `t0`: `again` is the next round, behind a wait.
unfoldable pub respond {ℓ} :
    {A : Type ℓ} → ℕ → ℕ → ℕ → ℕ → (ℕ → Option (Run A)) → Response A → Option (Run A)
unfolding retry_ms
respond budget elapsed attempt waited again throws = ended attempt waited failed
respond budget elapsed attempt waited again unreadable = ended attempt waited failed
respond budget elapsed attempt waited again (upstream_down d) = ended attempt waited (down d)
respond budget elapsed attempt waited again (answered d) = ended attempt waited (body d)
respond budget elapsed attempt waited again (accepted d in_body in_header) =
    if ltb budget (elapsed + retry_ms in_body in_header) || leb 8 attempt
    then ended attempt waited (pending d)
    else again (retry_ms in_body in_header)

-- The loop, with the number of the attempt and the time since `t0`; `none` is out of fuel.
unfoldable pub attempts {ℓ} : {A : Type ℓ} → ℕ → (ℕ → Exchange A) → ℕ → ℕ → ℕ → ℕ → Option (Run A)
unfolding respond
attempts zero exchange budget attempt since waited = none
attempts (suc fuel) exchange budget attempt since waited =
    let elapsed = since + (exchange attempt).took in
    respond budget elapsed attempt waited
      (λ ra. attempts fuel exchange budget (attempt + 1) (elapsed + ra) (waited + ra))
      (exchange attempt).response

-- `api(method, url, body, apiOpts)`: nine rounds are enough.
unfoldable pub api {ℓ} : {A : Type ℓ} → Bool → Option ℕ → (ℕ → Exchange A) → Option (Run A)
unfolding attempts budget_of
api is_get given exchange = attempts 9 exchange (budget_of is_get given) 0 0 0

-- `GET` and `POST` pass no options on, so a caller of them cannot give a budget.
unfoldable pub get {ℓ} : {A : Type ℓ} → (ℕ → Exchange A) → Option (Run A)
unfolding api
get exchange = api true none exchange

unfoldable pub post {ℓ} : {A : Type ℓ} → (ℕ → Exchange A) → Option (Run A)
unfolding api
post exchange = api false none exchange
