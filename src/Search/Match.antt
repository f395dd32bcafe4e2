-- ===== src/Search/Match.antt =====
-- srv/static/game.js: `snorm`, `sqnorm` and `smatch`. Texts are lists of code units; `base` is the first unit of the
-- canonical decomposition of a letter.
use siedler_sterreich.Prelude.{
  ℕ, Bool, true, false, not, ◌&&◌, ◌||◌, List, [], ◌∷◌, ◌++◌, ltb, leb, ◌==◌, Text, codes, text_eq,
  starts_with, includes, lower_unit, length, if◌then◌else◌,
}

abbrev pub is_space : ℕ → Bool
is_space c = c == 32 || (leb 9 c && leb c 13) || c == 160

-- `\w`
abbrev pub is_word : ℕ → Bool
is_word c = (leb 48 c && leb c 57) || (leb 65 c && leb c 90) || (leb 97 c && leb c 122) || c == 95

-- One round of `snorm`: 223 is ß; a dash, a point, a comma and a slash become a space.
unfoldable pub plain_unit : (ℕ → ℕ) → ℕ → ℕ
unfolding lower_unit
plain_unit base c =
    let l = lower_unit c in
    let d = if l == 223 then 115 else if ltb 127 l then base l else l in
    if d == 45 || d == 46 || d == 44 || d == 47 then 32 else d

unfoldable pub snorm : (ℕ → ℕ) → Text → Text
unfolding plain_unit
snorm base [] = []
snorm base (c ∷ s) = plain_unit base c ∷ snorm base s

abbrev pub ends_word : Text → Bool
ends_word [] = true
ends_word (c ∷ s) = not (is_word c)

-- `.replace(/\bst\b\.?\s*/g, 'sankt ')`: `inside` says that a word goes on, `skip` that a saint's spaces do. There are
-- no points any more.
unfoldable pub saints : Bool → Bool → Text → Text
saints inside skip [] = []
saints inside skip (c ∷ []) = if skip && is_space c then [] else c ∷ []
saints inside skip (c ∷ d ∷ s) =
    let skipped = saints false true (d ∷ s) in
    let saint = saints false true s in
    let next = saints (is_word c) false (d ∷ s) in
    if skip && is_space c
    then skipped
    else if not inside && c == 115 && d == 116 && ends_word s
    then codes "sankt " ++ saint
    else c ∷ next

-- The words between white space, which `.replace(/\s+/g, ' ').trim()` joins by one space.
unfoldable pub words_from : Text → Text → List Text
words_from [] [] = []
words_from (w ∷ word) [] = (w ∷ word) ∷ []
words_from [] (c ∷ s) = if is_space c then words_from [] s else words_from (c ∷ []) s
words_from (w ∷ word) (c ∷ s) =
    let rest = words_from [] s in
    let longer = words_from (w ∷ word ++ c ∷ []) s in
    if is_space c then (w ∷ word) ∷ rest else longer

unfoldable pub join : List Text → Text
join [] = []
join (w ∷ []) = w
join (w ∷ v ∷ ws) = w ++ 32 ∷ join (v ∷ ws)

unfoldable pub sqnorm : (ℕ → ℕ) → Text → Text
unfolding snorm saints words_from join
sqnorm base q = join (words_from [] (saints false false (snorm base q)))

-- `q.split(' ')` of a query key.
abbrev pub none_empty : List Text → List Text
none_empty [] = [] ∷ []
none_empty (w ∷ ws) = w ∷ ws

unfoldable pub tokens : Text → List Text
unfolding words_from
tokens q = none_empty (words_from [] q)

-- Every token stands at a word's start.
unfoldable pub all_start : Text → List Text → Bool
unfolding starts_with includes
all_start n [] = true
all_start n (t ∷ ts) = (starts_with n t || includes n (32 ∷ t)) && all_start n ts

abbrev pub is_empty : Text → Bool
is_empty [] = true
is_empty (_ ∷ _) = false

unfoldable pub smatch : Text → Text → List Text → ℕ
unfolding text_eq starts_with includes all_start
smatch n q toks =
    if is_empty q
    then 0
    else if text_eq n q
    then 4
    else if starts_with n q
    then 3
    else if all_start n toks
    then 2
    else if leb 4 (length q) && includes n q
    then 1
    else 0
