-- ===== src/Grid/Pool/Laws.antt =====
-- Every item is done once, the pool is never wider than it should be, and no runner stops early.
use siedler_sterreich.Prelude.{
  ℕ, zero, suc, ◌+◌, ◌≤◌, ◌<◌, Bool, List, [], ◌∷◌, ◌++◌, some, ◌≡◌, ◌⊎◌, inl, inr, refl, ap, arith,
  length, length-append, All, All-append, subst, option_split, if◌then◌else◌,
}
use siedler_sterreich.Grid.Pool.{
  Runner, Running, take_up, start_runners, width, run_pool, runner_at, replace_at, go_on, finish,
  After, started, finished,
}

module _ {ℓ} {A : Type ℓ} where
  abbrev pub items_of : List (Runner A) → List A
  items_of [] = []
  items_of (q ∷ qs) = q.item ∷ items_of qs

  abbrev pub done_items : List (A × ℕ) → List A
  done_items [] = []
  done_items (d ∷ ds) = d.0 ∷ done_items ds

  -- The true total.
  abbrev pub sum_of : List (A × ℕ) → ℕ
  sum_of [] = 0
  sum_of (d ∷ ds) = d.1 + sum_of ds

  -- How many items pass a test.
  abbrev pub tally : (A → Bool) → List A → ℕ
  tally f [] = 0
  tally f (x ∷ xs) = (if f x then 1 else 0) + tally f xs

  -- No item is lost or taken twice, whatever test tells items apart; the pool has `w` runners while there are
  -- items that nobody has taken, and never more; no total that a runner has read exceeds the true one.
  pub record Fair (w : ℕ) (items : List A) (p : Running A) : Type ℓ where
    pub once :
        (f : A → Bool)
        → tally f p.rest + tally f (items_of p.runners) + tally f (done_items p.done)
          ≡ tally f items
    pub narrow : length p.runners ≤ w
    pub busy : (p.rest ≡ []) ⊎ (length p.runners ≡ w)
    pub old : All (λ (q : Runner A). q.base ≤ sum_of p.done) p.runners
    pub total_le : p.total ≤ sum_of p.done

  tally-append : (f : A → Bool) (xs ys : List A) → tally f (xs ++ ys) ≡ tally f xs + tally f ys
  tally-append f [] ys = omega arith
  tally-append f (x ∷ xs) ys = ground (arith, tally-append f xs ys)

  items_of-append : (qs rs : List (Runner A)) → items_of (qs ++ rs) ≡ items_of qs ++ items_of rs
  items_of-append [] rs = refl
  items_of-append (q ∷ qs) rs = ap (λ l. q.item ∷ l) (items_of-append qs rs)

  replace_at-length :
      (n : ℕ) (new qs : List (Runner A))
      → n < length qs
      → length (replace_at n new qs) + 1 ≡ length qs + length new
  unfolding replace_at
  replace_at-length n new [] lt = absurd (omega (arith, lt))
  replace_at-length zero new (q ∷ qs) lt = omega (arith, length-append new qs)
  replace_at-length (suc n) new (q ∷ qs) lt = omega (arith, lt, replace_at-length n new qs)

  replace_at-tally :
      (f : A → Bool) (n : ℕ) (new qs : List (Runner A)) (q : Runner A)
      → runner_at n qs ≡ some q
      → tally f (items_of (replace_at n new qs)) + tally f (q.item ∷ [])
        ≡ tally f (items_of qs) + tally f (items_of new)
  unfolding replace_at runner_at
  replace_at-tally f n new [] q e = cc
  replace_at-tally f zero new (r ∷ qs) q e =
      ground (arith, e, items_of-append new qs, tally-append f (items_of new) (items_of qs))
  replace_at-tally f (suc n) new (r ∷ qs) q e = omega (arith, replace_at-tally f n new qs q e)

  replace_at-All :
      (P : Runner A → Type 0) (n : ℕ) (new qs : List (Runner A))
      → All P new
      → All P qs
      → All P (replace_at n new qs)
  unfolding replace_at
  replace_at-All P n new [] a b = tt
  replace_at-All P zero new (q ∷ qs) a b = All-append P new qs a b.1
  replace_at-All P (suc n) new (q ∷ qs) a b = (b.0, replace_at-All P n new qs a b.1)

  runner_at-All :
      (P : Runner A → Type 0) (n : ℕ) (qs : List (Runner A)) (q : Runner A)
      → runner_at n qs ≡ some q
      → All P qs
      → P q
  unfolding runner_at
  runner_at-All P n [] q e a = absurd (cc e)
  runner_at-All P zero (r ∷ qs) q e a = ground (arith, e, a.0)
  runner_at-All P (suc n) (r ∷ qs) q e a = runner_at-All P n qs q e a.1

  pub runner_at-some :
      (n : ℕ) (qs : List (Runner A)) → n < length qs → (q : Runner A) × (runner_at n qs ≡ some q)
  unfolding runner_at
  runner_at-some n [] lt = absurd (omega (arith, lt))
  runner_at-some zero (q ∷ qs) lt = (q, refl)
  runner_at-some (suc n) (q ∷ qs) lt = runner_at-some n qs (omega (arith, lt))

  All-weaker :
      (a b : ℕ) (qs : List (Runner A))
      → a ≤ b
      → All (λ (q : Runner A). q.base ≤ a) qs
      → All (λ (q : Runner A). q.base ≤ b) qs
  All-weaker a b [] le p = tt
  All-weaker a b (q ∷ qs) le p = (omega (arith, le, p.0), All-weaker a b qs le p.1)

  go_on-Fair :
      (w n : ℕ) (items rest : List A) (p : Running A) (q : Runner A) (result : ℕ)
      → runner_at n p.runners ≡ some q
      → n < length p.runners
      → p.rest ≡ rest
      → Fair w items p
      → Fair w items
          (go_on n rest (record p { total = q.base + result; done = (q.item, result) ∷ p.done }))
  unfolding go_on
  go_on-Fair w n items [] p q result e lt none_left s =
      let le : q.base ≤ sum_of p.done =
        runner_at-All (λ q. q.base ≤ sum_of p.done) n p.runners q e s.old in
      record {
        once = λ f. omega (arith, s.once f, replace_at-tally f n [] p.runners q e);
        narrow = omega (arith, s.narrow, replace_at-length n [] p.runners lt);
        busy = inl none_left;
        old =
            replace_at-All (λ q. q.base ≤ result + sum_of p.done) n [] p.runners tt
              (All-weaker (sum_of p.done) (result + sum_of p.done) p.runners (omega arith) s.old);
        total_le = omega (arith, le);
      }
  go_on-Fair w n items (x ∷ xs) p q result e lt some_left s =
      let le : q.base ≤ sum_of p.done =
        runner_at-All (λ q. q.base ≤ sum_of p.done) n p.runners q e s.old in
      let r : Runner A = record { item = x; base = q.base + result } in
      record {
        once = λ f.
            omega (
              arith,
              s.once f,
              replace_at-tally f n (r ∷ []) p.runners q e,
              ap (tally f) some_left,
            );
        narrow = omega (arith, s.narrow, replace_at-length n (r ∷ []) p.runners lt);
        busy = elim s.busy [
          | inl none_left ↦ absurd (cc (none_left, some_left))
          | inr full ↦ inr (omega (arith, full, replace_at-length n (r ∷ []) p.runners lt))
        ];
        old =
            replace_at-All (λ q. q.base ≤ result + sum_of p.done) n (r ∷ []) p.runners
              (omega (arith, le), tt)
              (All-weaker (sum_of p.done) (result + sum_of p.done) p.runners (omega arith) s.old);
        total_le = omega (arith, le);
      }

  take_up-Fair :
      (items rest : List A) (p : Running A)
      → p.rest ≡ rest
      → Fair (length p.runners) items p
      → Fair (length (take_up rest p).runners) items (take_up rest p)
  unfolding take_up
  take_up-Fair items [] p e s = s
  take_up-Fair items (x ∷ xs) p e s =
      let r : Runner A = record { item = x; base = p.total } in
      record {
        once = λ f. omega (
          arith,
          s.once f,
          ap (tally f) e,
          ap (tally f) (items_of-append p.runners (r ∷ [])),
          tally-append f (items_of p.runners) (x ∷ []),
        );
        narrow = omega arith;
        busy = inr refl;
        old = All-append (λ q. q.base ≤ sum_of p.done) p.runners (r ∷ []) s.old (s.total_le, tt);
        total_le = s.total_le;
      }

  take_up-length :
      (rest : List A) (p : Running A)
      → p.rest ≡ rest
      → 1 ≤ length rest
      → (length (take_up rest p).runners ≡ length p.runners + 1)
        × (length (take_up rest p).rest + 1 ≡ length rest)
  unfolding take_up
  take_up-length [] p e room = absurd (omega (arith, room))
  take_up-length (x ∷ xs) p e room =
      (length-append p.runners (record { item = x; base = p.total } ∷ []), omega arith)

  start_runners-Fair :
      (w n : ℕ) (items : List A) (p : Running A)
      → length p.runners + n ≡ w
      → n ≤ length p.rest
      → Fair (length p.runners) items p
      → Fair w items (start_runners n p)
  unfolding start_runners
  start_runners-Fair w zero items p size room s =
      let same : length p.runners ≡ w = omega (arith, size) in subst (λ v. Fair v items p) same s
  start_runners-Fair w (suc n) items p size room s =
      let grown = take_up-length p.rest p refl (omega (arith, room)) in
      start_runners-Fair w n items (take_up p.rest p) (omega (arith, size, grown.0))
        (omega (arith, room, grown.1)) (take_up-Fair items p.rest p refl s)

  run_pool-Fair : (conc : ℕ) (items : List A) → Fair (width conc items) items (run_pool conc items)
  unfolding run_pool
  run_pool-Fair conc items =
      start_runners-Fair (width conc items) (width conc items) items
        (record { rest = items; runners = []; total = 0; done = [] }) (omega arith) (omega arith)
        (record {
          once = λ f. omega arith;
          narrow = omega arith;
          busy = inr refl;
          old = tt;
          total_le = omega arith;
        })

  finish-Fair :
      (w n : ℕ) (items : List A) (p : Running A) (result : ℕ)
      → n < length p.runners
      → Fair w items p
      → Fair w items (finish n result p)
  unfolding finish
  finish-Fair w n items p result lt s =
      option_split (Fair w items) (runner_at n p.runners) s
        (λ q e. go_on-Fair w n items p.rest p q result e lt refl s)

  -- After any number of results, in any order of the runners: every item is still to be taken, in work or done,
  -- exactly once; the pool has its full width while there are items to take, and is never wider; and the total
  -- is at most the sum of the results.
  pub After-Fair :
      (conc : ℕ) (items : List A) (k : ℕ) (p : Running A)
      → After conc items k p
      → Fair (width conc items) items p
  After-Fair conc items _ _ started = run_pool-Fair conc items
  After-Fair conc items _ _ (finished {k = k} {p = p} n result lt before) =
      finish-Fair (width conc items) n items p result lt (After-Fair conc items k p before)
