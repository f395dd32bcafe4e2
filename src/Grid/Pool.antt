-- ===== src/Grid/Pool.antt =====
-- `runPool`: a few runners take the items in order, each the next one when its own is done. Workers are taken not to
-- reject; one that did would end the pool.
pub mod Laws
pub mod Ends
use siedler_sterreich.Prelude.{
  ℕ, zero, suc, ◌+◌, ◌<◌, min, List, [], ◌∷◌, ◌++◌, Option, none, some, ◌==◌, length, if◌then◌else◌,
}

-- A runner that waits for its worker: `total += await …` has read `total` before it waits.
pub record Runner {ℓ} (A : Type ℓ) : Type ℓ where
  pub item : A
  pub base : ℕ

-- `rest` are the items from `i` on, `done` those that are done, with the worker's results, the last one first.
pub record Running {ℓ} (A : Type ℓ) : Type ℓ where
  pub rest : List A
  pub runners : List (Runner A)
  pub total : ℕ
  pub done : List (A × ℕ)

module _ {ℓ} {A : Type ℓ} where
  -- A runner's first turn: it takes an item, if there is one.
  unfoldable pub take_up : List A → Running A → Running A
  take_up [] p = p
  take_up (x ∷ xs) p = record p {
    rest = xs;
    runners = p.runners ++ record { item = x; base = p.total } ∷ [];
  }

  unfoldable pub start_runners : ℕ → Running A → Running A
  unfolding take_up
  start_runners zero p = p
  start_runners (suc n) p = start_runners n (take_up p.rest p)

  abbrev pub width : ℕ → List A → ℕ
  width conc items = min (if conc == 0 then 4 else conc) (length items)

  -- `runPool(items, worker, conc)` up to its `await`.
  unfoldable pub run_pool : ℕ → List A → Running A
  unfolding start_runners
  run_pool conc items =
      start_runners (width conc items) (record { rest = items; runners = []; total = 0; done = [] })

  unfoldable pub runner_at : ℕ → List (Runner A) → Option (Runner A)
  runner_at n [] = none
  runner_at zero (q ∷ qs) = some q
  runner_at (suc n) (q ∷ qs) = runner_at n qs

  -- The runner's place with what it does next: another item, or nothing, and then it is gone.
  unfoldable pub replace_at : ℕ → List (Runner A) → List (Runner A) → List (Runner A)
  replace_at n new [] = []
  replace_at zero new (q ∷ qs) = new ++ qs
  replace_at (suc n) new (q ∷ qs) = q ∷ replace_at n new qs

  unfoldable pub go_on : ℕ → List A → Running A → Running A
  unfolding replace_at
  go_on n [] p = record p { runners = replace_at n [] p.runners }
  go_on n (x ∷ xs) p = record p {
    rest = xs;
    runners = replace_at n (record { item = x; base = p.total } ∷ []) p.runners;
  }

  -- The worker of the runner at a place is done, with its result.
  unfoldable pub finish : ℕ → ℕ → Running A → Running A
  unfolding runner_at go_on
  finish n result p = elim (runner_at n p.runners) [
    | none ↦ p
    | some q ↦
        go_on n p.rest (record p { total = q.base + result; done = (q.item, result) ∷ p.done })
  ]

  -- The states after so many results, in any order.
  pub data After (conc : ℕ) (items : List A) : ℕ → Running A → Type ℓ where
    started : After conc items 0 (run_pool conc items)
    finished :
        {k : ℕ} {p : Running A} (n result : ℕ)
        → n < length p.runners
        → After conc items k p
        → After conc items (suc k) (finish n result p)
