-- ===== src/Regrowth/Hash.antt =====
-- srv/static/game.js: `simpleHash`, `hashMix`. JavaScript's bit operations work on 32 bits, its sums
-- do not wrap.
use Prim.Native.Nat.{bit_xor}
use siedler_sterreich.Prelude.{
  ℕ, ◌+◌, ◌-◌, ◌*◌, ◌/◌, ◌%◌, [], ◌∷◌, ◌≡◌, ◌∙◌, refl, ap, arith, ltb, if◌then◌else◌, Text,
}
use siedler_sterreich.Prelude.Int.{ℤ, pos, negsuc, pos_part, neg_part, sub_ℕ}

abbrev pub word : ℕ
word = 4294967296

-- `h >>> 0`
abbrev pub to_uint32 : ℤ → ℕ
to_uint32 (pos n) = n % word
to_uint32 (negsuc n) = word - 1 - n % word

-- `u | 0` of an unsigned word.
abbrev to_int32 : ℕ → ℤ
to_int32 u = if ltb u 2147483648 then pos u else negsuc (word - 1 - u)

-- `((h << 5) - h) + c`
hash_step : ℤ → ℕ → ℤ
hash_step h c =
    let shifted = to_int32 (to_uint32 h * 32 % word) in
    sub_ℕ (pos_part shifted + neg_part h + c) (neg_part shifted + pos_part h)

hash_from : ℤ → Text → ℤ
unfolding hash_step
hash_from h [] = h
hash_from h (c ∷ s) = hash_from (hash_step h c) s

unfoldable pub simple_hash : Text → ℕ
unfolding hash_from
simple_hash s = to_uint32 (hash_from (pos 0) s)

-- The polynomial in 31 that the shifts stand for.
pub poly_hash : ℕ → Text → ℕ
poly_hash u [] = u
poly_hash u (c ∷ s) = poly_hash ((31 * u + c) % word) s

hash_step-mod : (h : ℤ) (c : ℕ) → to_uint32 (hash_step h c) ≡ (31 * to_uint32 h + c) % word
unfolding hash_step
hash_step-mod h c = ground arith

-- `hashMix`
unfoldable pub hash_mix : ℕ → ℕ
hash_mix h = let mixed = bit_xor h (h / 65536) * 0x45d9f3b % word in bit_xor mixed (mixed / 65536)

hash_from-mod : (h : ℤ) (s : Text) → to_uint32 (hash_from h s) ≡ poly_hash (to_uint32 h) s
unfolding hash_from poly_hash
hash_from-mod h [] = refl
hash_from-mod h (c ∷ s) =
    hash_from-mod (hash_step h c) s ∙ ap (λ u. poly_hash u s) (hash_step-mod h c)

-- `simpleHash`, whose shifts wrap at 32 bits and whose sums do not, is the polynomial in 31 of the
-- code units, taken modulo 2^32 at every unit.
pub simple_hash-poly : (s : Text) → simple_hash s ≡ poly_hash 0 s
unfolding simple_hash
simple_hash-poly s = hash_from-mod (pos 0) s
