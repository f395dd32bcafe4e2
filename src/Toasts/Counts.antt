-- ===== src/Toasts/Counts.antt =====
-- How often a text is on show or waits, under the operations on the lists.
use siedler_sterreich.Prelude.{
  ℕ, zero, suc, ◌+◌, ◌≤◌, String, false, List, [], ◌∷◌, ◌++◌, ◌≡◌, refl, arith, ltb, str_eq, length,
  last_of, if_split, if◌then◌else◌,
}
use siedler_sterreich.Toasts.{
  Shown, Waiting, is_live, is_queued, drop_key, bump, drop_stale, dismiss_at,
}

-- How often a text is on show, and in the queue.
unfoldable pub on_show : String → List Shown → ℕ
on_show m [] = 0
on_show m (t ∷ ts) = (if str_eq t.msg m then 1 else 0) + on_show m ts

unfoldable pub in_queue : String → List Waiting → ℕ
in_queue m [] = 0
in_queue m (q ∷ qs) = (if str_eq q.msg m then 1 else 0) + in_queue m qs

pub is_live-on_show : (m : String) (ts : List Shown) → is_live m ts ≡ false → on_show m ts ≡ 0
unfolding is_live on_show
is_live-on_show m [] e = refl
is_live-on_show m (t ∷ ts) e = ground (arith, e, is_live-on_show m ts)

pub is_queued-in_queue :
    (m : String) (qs : List Waiting) → is_queued m qs ≡ false → in_queue m qs ≡ 0
unfolding is_queued in_queue
is_queued-in_queue m [] e = refl
is_queued-in_queue m (q ∷ qs) e = ground (arith, e, is_queued-in_queue m qs)

pub on_show-append :
    (m : String) (ts us : List Shown) → on_show m (ts ++ us) ≡ on_show m ts + on_show m us
unfolding on_show
on_show-append m [] us = omega arith
on_show-append m (t ∷ ts) us = omega (arith, on_show-append m ts us)

pub in_queue-append :
    (m : String) (ps qs : List Waiting) → in_queue m (ps ++ qs) ≡ in_queue m ps + in_queue m qs
unfolding in_queue
in_queue-append m [] qs = omega arith
in_queue-append m (p ∷ ps) qs = omega (arith, in_queue-append m ps qs)

pub last_of-on_show :
    (m : String) (n : ℕ) (ts : List Shown) → on_show m (last_of n ts) ≤ on_show m ts
unfolding last_of on_show
last_of-on_show m n [] = omega arith
last_of-on_show m n (t ∷ ts) =
    if_split (λ l. on_show m l ≤ on_show m (t ∷ ts)) (ltb n (length (t ∷ ts)))
      (λ _. omega (arith, last_of-on_show m n ts)) (λ _. omega arith)

pub last_of-in_queue :
    (m : String) (n : ℕ) (qs : List Waiting) → in_queue m (last_of n qs) ≤ in_queue m qs
unfolding last_of in_queue
last_of-in_queue m n [] = omega arith
last_of-in_queue m n (q ∷ qs) =
    if_split (λ l. in_queue m l ≤ in_queue m (q ∷ qs)) (ltb n (length (q ∷ qs)))
      (λ _. omega (arith, last_of-in_queue m n qs)) (λ _. omega arith)

pub drop_key-in_queue :
    (m k : String) (qs : List Waiting) → in_queue m (drop_key k qs) ≤ in_queue m qs
unfolding drop_key in_queue
drop_key-in_queue m k [] = omega arith
drop_key-in_queue m k (q ∷ qs) = ground (arith, drop_key-in_queue m k qs)

pub bump-length : (m : String) (ms : ℕ) (ts : List Shown) → length (bump m ms ts) ≡ length ts
unfolding bump
bump-length m ms [] = refl
bump-length m ms (t ∷ ts) = ground (arith, bump-length m ms ts)

pub bump-on_show :
    (m k : String) (ms : ℕ) (ts : List Shown) → on_show k (bump m ms ts) ≡ on_show k ts
unfolding bump on_show
bump-on_show m k ms [] = refl
bump-on_show m k ms (t ∷ ts) = ground (arith, bump-on_show m k ms ts)

pub drop_stale-short :
    (m : String) (now : ℕ) (qs : List Waiting)
    → (in_queue m (drop_stale now qs) ≤ in_queue m qs) × (length (drop_stale now qs) ≤ length qs)
unfolding drop_stale in_queue
drop_stale-short m now [] = (omega arith, omega arith)
drop_stale-short m now (q ∷ qs) = ground (arith, drop_stale-short m now qs)

pub dismiss_at-on_show :
    (m : String) (n : ℕ) (ts : List Shown)
    → (on_show m (dismiss_at n ts) ≤ on_show m ts) × (length (dismiss_at n ts) ≤ length ts)
unfolding dismiss_at on_show
dismiss_at-on_show m n [] = (omega arith, omega arith)
dismiss_at-on_show m zero (t ∷ ts) = (omega arith, omega arith)
dismiss_at-on_show m (suc n) (t ∷ ts) = ground (arith, dismiss_at-on_show m n ts)
