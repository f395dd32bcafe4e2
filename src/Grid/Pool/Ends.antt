-- ===== src/Grid/Pool/Ends.antt =====
-- The pool ends after as many results as there are items, and what its total is then.
use siedler_sterreich.Prelude.{
  ℕ, zero, suc, ◌+◌, ◌≤◌, ◌<◌, Bool, true, List, [], ◌∷◌, ◌≡◌, ◌⊎◌, inl, inr, refl, ap, ◌∙◌, arith,
  ◌==◌, length, Bool-cases,
}
use siedler_sterreich.Grid.Pool.{
  Runner, Running, width, run_pool, start_runners, take_up, runner_at, go_on, replace_at, finish,
  After, started, finished,
}
use siedler_sterreich.Grid.Pool.Laws.{
  Fair, tally, items_of, done_items, sum_of, runner_at-some, After-Fair,
}

empty_of {ℓ} : {B : Type ℓ} (xs : List B) → length xs ≡ 0 → xs ≡ []
empty_of [] e = refl
empty_of (x ∷ xs) e = absurd (omega (arith, e))

module _ {ℓ} {A : Type ℓ} where
  tally_all : (xs : List A) → tally (λ _. true) xs ≡ length xs
  tally_all [] = refl
  tally_all (x ∷ xs) = omega (arith, tally_all xs)

  items_of-length : (qs : List (Runner A)) → length (items_of qs) ≡ length qs
  items_of-length [] = refl
  items_of-length (q ∷ qs) = omega (arith, items_of-length qs)

  done_items-length : (ds : List (A × ℕ)) → length (done_items ds) ≡ length ds
  done_items-length [] = refl
  done_items-length (d ∷ ds) = omega (arith, done_items-length ds)

  go_on-done : (n : ℕ) (rest : List A) (p : Running A) → (go_on n rest p).done ≡ p.done
  unfolding go_on
  go_on-done n [] p = refl
  go_on-done n (x ∷ xs) p = refl

  take_up-done : (rest : List A) (p : Running A) → (take_up rest p).done ≡ p.done
  unfolding take_up
  take_up-done [] p = refl
  take_up-done (x ∷ xs) p = refl

  start_runners-done : (n : ℕ) (p : Running A) → (start_runners n p).done ≡ p.done
  unfolding start_runners
  start_runners-done zero p = refl
  start_runners-done (suc n) p = start_runners-done n (take_up p.rest p) ∙ take_up-done p.rest p

  run_pool-done : (conc : ℕ) (items : List A) → (run_pool conc items).done ≡ []
  unfolding run_pool
  run_pool-done conc items =
      start_runners-done (width conc items)
        (record { rest = items; runners = []; total = 0; done = [] })

  finish-done :
      (n result : ℕ) (p : Running A)
      → n < length p.runners
      → length (finish n result p).done ≡ length p.done + 1
  unfolding finish
  finish-done n result p lt =
      let found = runner_at-some n p.runners lt in rw (found.1, finish) (step found.0)
    where
      step :
          (q : Runner A)
          → length
              (go_on n p.rest
                (record p { total = q.base + result; done = (q.item, result) ∷ p.done })).done
            ≡ length p.done + 1
      step q =
          ap length (
            go_on-done n p.rest
              (record p { total = q.base + result; done = (q.item, result) ∷ p.done }))
          ∙ omega arith

  After-length :
      (conc : ℕ) (items : List A) (k : ℕ) (p : Running A) → After conc items k p → length p.done ≡ k
  After-length conc items _ _ started = ap length (run_pool-done conc items)
  After-length conc items _ _ (finished {k = k} {p = p} n result lt before) =
      omega (arith, finish-done n result p lt, After-length conc items k p before)

  -- Every item has been done once.
  pub record Complete (items : List A) (p : Running A) : Type ℓ where
    pub all_taken : p.rest ≡ []
    pub all_done : (f : A → Bool) → tally f (done_items p.done) ≡ tally f items

  idle-Complete :
      (conc : ℕ) (items : List A) (p : Running A)
      → Fair (width conc items) items p
      → length p.runners ≡ 0
      → Complete items p
  idle-Complete conc items p fair idle = record {
    all_taken = taken;
    all_done = λ f. omega (
      arith,
      fair.once f,
      ap (tally f) taken,
      ap (λ qs. tally f (items_of qs)) (empty_of p.runners idle),
    );
  }
    where
      taken : p.rest ≡ []
      taken = elim fair.busy [
        | inl none_left ↦ none_left
        | inr full ↦
            empty_of p.rest
              (ground (arith, full, idle, fair.once (λ _. true), tally_all p.rest, tally_all items))
      ]

  -- A pool ends after exactly as many results as it has items, never sooner and never later: as long as fewer
  -- have come a runner is at work, and after the last one every item has been done once.
  pub run_pool-Complete :
      (conc : ℕ) (items : List A) (k : ℕ) (p : Running A)
      → After conc items k p
      → ((k < length items) × (1 ≤ length p.runners)) ⊎ ((k ≡ length items) × Complete items p)
  run_pool-Complete conc items k p after =
      let fair = After-Fair conc items k p after in
      let count : length p.rest + length p.runners + k ≡ length items = omega (
        arith,
        fair.once (λ _. true),
        tally_all p.rest,
        tally_all (items_of p.runners),
        tally_all (done_items p.done),
        tally_all items,
        items_of-length p.runners,
        done_items-length p.done,
        After-length conc items k p after,
      ) in
      elim (Bool-cases (length p.runners == 0)) [
        | inl none_left ↦
            let idle : length p.runners ≡ 0 = ground (arith, none_left) in
            let complete = idle-Complete conc items p fair idle in
            inr (omega (arith, count, idle, ap length complete.all_taken), complete)
        | inr some_left ↦ inl (ground (arith, some_left, count), ground (arith, some_left))
      ]

  -- The first result of a pool of two runners counts for nothing when the second runner's comes after it: both
  -- have read the total before they wait. So for any two items and results the total can end as the second
  -- result alone.
  pub run_pool-loses :
      (x y : A) (first second : ℕ)
      → (p : Running A) × After 2 (x ∷ y ∷ []) 2 p
        × (p.runners ≡ [])
        × (p.total ≡ second)
        × (sum_of p.done ≡ first + second)
  unfolding run_pool start_runners take_up finish runner_at go_on replace_at
  run_pool-loses x y first second = (
    finish 0 second (finish 0 first (run_pool 2 (x ∷ y ∷ []))),
    finished 0 second (omega arith) (finished 0 first (omega arith) started),
    refl,
    omega arith,
    omega arith,
  )
