-- ===== src/Search/Local/Best.antt =====
-- What is listed are the best hits, each once and none without need.
use siedler_sterreich.Prelude.{
  ℕ, ◌≤◌, ◌<◌, Bool, true, not, List, [], ◌∷◌, ◌≡◌, ◌⊎◌, arith, ◌==◌, Text, take, length, keep_if,
  All, All-keep_if, if_split, if◌then◌else◌,
}
use siedler_sterreich.Search.Match.{tokens, smatch}
use siedler_sterreich.Search.Ranked.{In, sort_onto-All, take-length, All-take}
use siedler_sterreich.Search.Local.Order.{IsAsGood}
use siedler_sterreich.Search.Local.{
  Row, Table, Around, Hit, Intent, ahead, hits, sorted_hits, repeats, search_names,
}

hits-All :
    (a : Around) (q : Text) (toks : List Text) (rows : List Row)
    → All (λ (h : Hit). 0 < h.score) (hits a q toks rows)
unfolding hits
hits-All a q toks [] = tt
hits-All a q toks (r ∷ rows) =
    if_split (All (λ (h : Hit). 0 < h.score)) (smatch r.n q toks == 0) (λ _. hits-All a q toks rows)
      (λ e. (ground (arith, e), hits-All a q toks rows))

keep_if-All : (f : Hit → Bool) (hs : List Hit) → All (λ h. f h ≡ true) (keep_if f hs)
keep_if-All f [] = tt
keep_if-All f (h ∷ hs) =
    if_split (All (λ h. f h ≡ true)) (f h) (λ e. (e, keep_if-All f hs)) (λ _. keep_if-All f hs)

-- A hit is listed, or the list is full and every hit on it is as good.
abbrev pub IsBeaten : Around → ℕ → Hit → List Hit → Type 0
IsBeaten a most h listed = In h listed ⊎ ((length listed ≡ most) × All (λ y. IsAsGood a y h) listed)

sorted_hits-All :
    (a : Around) (q : Text) (rows : List Row)
    → All (λ (h : Hit). 0 < h.score) (sorted_hits a q rows)
sorted_hits-All a q rows =
    sort_onto-All (ahead a) (λ (h : Hit). 0 < h.score) (hits a q (tokens q) rows) [] tt
      (hits-All a q (tokens q) rows)

-- At most six municipalities are listed, four in the game, and at most five communities; all of them match, and no
-- community on the list only repeats a municipality on it.
pub search_names-bounds :
    (a : Around) (t : Table) (q : Text) (parcels : List Intent)
    → (length (search_names a t q parcels).gemeinden ≤ (if a.in_game then 4 else 6))
      × (length (search_names a t q parcels).kgs ≤ 5)
      × All (λ (h : Hit). 0 < h.score) (search_names a t q parcels).gemeinden
      × All (λ (h : Hit). 0 < h.score) (search_names a t q parcels).kgs
      × All
          (λ (h : Hit). not (repeats (search_names a t q parcels).gemeinden h) ≡ true)
          (search_names a t q parcels).kgs
unfolding search_names
search_names-bounds a t q parcels = (
  take-length (if a.in_game then 4 else 6) (sorted_hits a q t.g),
  take-length 5 listed,
  All-take (λ (h : Hit). 0 < h.score) (if a.in_game then 4 else 6) (sorted_hits a q t.g)
      (sorted_hits-All a q t.g),
  All-take (λ (h : Hit). 0 < h.score) 5 listed
      (All-keep_if (λ (h : Hit). 0 < h.score) (λ (h : Hit). not (repeats shown h))
        (sorted_hits a q t.k) (sorted_hits-All a q t.k)),
  All-take (λ (h : Hit). not (repeats shown h) ≡ true) 5 listed
      (keep_if-All (λ (h : Hit). not (repeats shown h)) (sorted_hits a q t.k)),
)
  where
    shown : List Hit
    shown = take (if a.in_game then 4 else 6) (sorted_hits a q t.g)

    listed : List Hit
    listed = keep_if (λ (h : Hit). not (repeats shown h)) (sorted_hits a q t.k)
