-- ===== src/Visited/Base36.antt =====
-- A number in base 36 reads back.
use siedler_sterreich.Prelude.{
  ℕ, zero, suc, ◌+◌, ◌/◌, ◌%◌, ◌<◌, true, [], ◌∷◌, ◌≡◌, refl, ap, ◌∙◌, arith, ltb, Text, bool_split,
}
use siedler_sterreich.Visited.{
  digit36, value36, is_digit36, all_digits36, digits36, print36, parse36_from,
}

value36-digit36 : (v : ℕ) → v < 36 → value36 (digit36 v) ≡ v
value36-digit36 v h = ground arith

is_digit36-digit36 : (v : ℕ) → v < 36 → is_digit36 (digit36 v) ≡ true
is_digit36-digit36 v h = ground arith

parse36_from-digits36 :
    (k n : ℕ) (acc : Text) → n < k → parse36_from 0 (digits36 k n acc) ≡ parse36_from n acc
unfolding parse36_from digits36
parse36_from-digits36 zero n acc lt = absurd (omega (arith, lt))
parse36_from-digits36 (suc k) n acc lt =
    bool_split {x = digit36 n ∷ acc} {y = digits36 k (n / 36) (digit36 (n % 36) ∷ acc)}
      (λ s. parse36_from 0 s ≡ parse36_from n acc) (ltb n 36)
      (λ small. ap (λ m. parse36_from m acc) (ground (arith, small, value36-digit36 n)))
      (λ large.
        parse36_from-digits36 k (n / 36) (digit36 (n % 36) ∷ acc) (ground (arith, large, lt))
        ∙ ap (λ m. parse36_from m acc) (omega (arith, value36-digit36 (n % 36) (omega arith))))

all_digits36-digits36 :
    (k n : ℕ) (acc : Text) → all_digits36 acc ≡ true → all_digits36 (digits36 k n acc) ≡ true
unfolding all_digits36 digits36
all_digits36-digits36 zero n acc h = h
all_digits36-digits36 (suc k) n acc h =
    bool_split {x = digit36 n ∷ acc} {y = digits36 k (n / 36) (digit36 (n % 36) ∷ acc)}
      (λ s. all_digits36 s ≡ true) (ltb n 36)
      (λ small. ground (arith, h, small, is_digit36-digit36 n))
      (λ large.
        all_digits36-digits36 k (n / 36) (digit36 (n % 36) ∷ acc)
          (ground (arith, h, is_digit36-digit36 (n % 36))))

pub parse36-print36 : (n : ℕ) → parse36_from 0 (print36 n) ≡ n
unfolding print36 parse36_from
parse36-print36 n = parse36_from-digits36 (n + 1) n [] (omega arith)

pub all_digits36-print36 : (n : ℕ) → all_digits36 (print36 n) ≡ true
unfolding print36 all_digits36
all_digits36-print36 n = all_digits36-digits36 (n + 1) n [] refl

-- A text that is not empty.
pub data HasFirst : Text → Type 0 where
  starts : (c : ℕ) (s : Text) → HasFirst (c ∷ s)

digits36-HasFirst : (k n : ℕ) (acc : Text) → n < k → HasFirst (digits36 k n acc)
unfolding digits36
digits36-HasFirst zero n acc lt = absurd (omega (arith, lt))
digits36-HasFirst (suc k) n acc lt =
    bool_split {x = digit36 n ∷ acc} {y = digits36 k (n / 36) (digit36 (n % 36) ∷ acc)} HasFirst
      (ltb n 36) (λ _. starts (digit36 n) acc)
      (λ large. digits36-HasFirst k (n / 36) (digit36 (n % 36) ∷ acc) (ground (arith, large, lt)))

pub print36-HasFirst : (n : ℕ) → HasFirst (print36 n)
unfolding print36
print36-HasFirst n = digits36-HasFirst (n + 1) n [] (omega arith)
