-- ===== src/Api/Budget.antt =====
-- What `api` promises to its callers: it ends, in time, and only a GET is sent twice.
use siedler_sterreich.Prelude.{
  ℕ, zero, suc, ◌+◌, ◌≤◌, ◌<◌, Bool, Option, none, some, if_split, ◌||◌, ltb, leb, ◌≡◌, refl, arith,
}
use siedler_sterreich.Api.{
  Response, throws, unreadable, upstream_down, accepted, answered, Exchange, Run, respond, attempts,
  api, post, budget_of, retry_ms,
}

-- A run that ends, with at most nine requests, and waits no longer than the budget.
abbrev pub InBudget {ℓ} : {A : Type ℓ} → ℕ → Option (Run A) → Type 0
InBudget budget none = ⊥
InBudget budget (some r) = (1 ≤ r.requests) × (r.requests ≤ 9) × (r.waited ≤ budget)

respond-InBudget {ℓ} :
    {A : Type ℓ} (budget elapsed attempt waited : ℕ) (again : ℕ → Option (Run A)) (r : Response A)
    → attempt ≤ 8
    → waited ≤ elapsed
    → waited ≤ budget
    → ((ra : ℕ) → elapsed + ra ≤ budget → attempt < 8 → InBudget budget (again ra))
    → InBudget budget (respond budget elapsed attempt waited again r)
unfolding respond
respond-InBudget budget elapsed attempt waited again throws e h k later = ground arith
respond-InBudget budget elapsed attempt waited again unreadable e h k later = ground arith
respond-InBudget budget elapsed attempt waited again (upstream_down d) e h k later = ground arith
respond-InBudget budget elapsed attempt waited again (answered d) e h k later = ground arith
respond-InBudget budget elapsed attempt waited again (accepted d b c) e h k later =
    if_split (InBudget budget) (ltb budget (elapsed + retry_ms b c) || leb 8 attempt)
      (λ _. ground arith) (λ t. later (retry_ms b c) (ground (arith, t)) (ground (arith, t)))

-- A run of one request and no wait.
abbrev pub OneRequest {ℓ} : {A : Type ℓ} → Option (Run A) → Type 0
OneRequest none = ⊥
OneRequest (some r) = (r.requests ≡ 1) × (r.waited ≡ 0)

respond-once {ℓ} :
    {A : Type ℓ} (elapsed : ℕ) (again : ℕ → Option (Run A)) (r : Response A)
    → OneRequest (respond 0 elapsed 0 0 again r)
unfolding respond retry_ms
respond-once elapsed again throws = ground arith
respond-once elapsed again unreadable = ground arith
respond-once elapsed again (upstream_down d) = ground arith
respond-once elapsed again (answered d) = ground arith
respond-once elapsed again (accepted d b c) = ground arith

attempts-InBudget {ℓ} :
    {A : Type ℓ} (exchange : ℕ → Exchange A) (budget fuel attempt since waited : ℕ)
    → attempt + suc fuel ≡ 9
    → waited ≤ since
    → waited ≤ budget
    → InBudget budget (attempts (suc fuel) exchange budget attempt since waited)
unfolding attempts
attempts-InBudget exchange budget zero attempt since waited e h k =
    respond-InBudget budget _ attempt waited
      (λ ra.
        attempts 0 exchange budget (attempt + 1) (since + (exchange attempt).took + ra)
          (waited + ra))
      (exchange attempt).response (omega (arith, e)) (omega (arith, h)) k
      (λ ra _ few. absurd (omega (arith, e, few)))
attempts-InBudget exchange budget (suc fuel) attempt since waited e h k =
    respond-InBudget budget _ attempt waited
      (λ ra.
        attempts (suc fuel) exchange budget (attempt + 1) (since + (exchange attempt).took + ra)
          (waited + ra))
      (exchange attempt).response (omega (arith, e)) (omega (arith, h)) k
      (λ ra room _.
        attempts-InBudget exchange budget fuel (attempt + 1) (since + (exchange attempt).took + ra)
          (waited + ra) (omega (arith, e)) (omega (arith, h)) (omega (arith, room, h)))

-- A call ends, whatever the exchanges give and however long they take, after at least one and at most
-- nine requests, and it waits between them no longer than its budget in all.
pub api-InBudget {ℓ} :
    {A : Type ℓ} (is_get : Bool) (given : Option ℕ) (exchange : ℕ → Exchange A)
    → InBudget (budget_of is_get given) (api is_get given exchange)
unfolding api
api-InBudget is_get given exchange =
    attempts-InBudget exchange (budget_of is_get given) 8 0 0 0 refl (omega arith) (omega arith)

-- A request through `POST` is sent once, whatever comes back, and nothing is waited for.
pub post-once {ℓ} : {A : Type ℓ} (exchange : ℕ → Exchange A) → OneRequest (post exchange)
unfolding post attempts budget_of
post-once exchange =
    respond-once (0 + (exchange 0).took)
      (λ ra. attempts 8 exchange 0 1 (0 + (exchange 0).took + ra) (0 + ra)) (exchange 0).response
