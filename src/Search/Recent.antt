-- ===== src/Search/Recent.antt =====
-- srv/static/game.js: the searches that are kept (`searchRecentPush`).
use siedler_sterreich.Prelude.{
  ℕ, zero, suc, String, Bool, true, false, not, ◌&&◌, ◌||◌, List, [], ◌∷◌, str_eq, ◌≡◌, refl, arith,
  take, keep_if,
}

-- An entry of the list that `localStorage` keeps.
pub record Recent : Type 0 where
  pub key : String
  pub label : String

-- `searchRecentPush(item)`
unfoldable pub search_recent_push : Recent → List Recent → List Recent
search_recent_push item recent =
    take 6 (item ∷ keep_if (λ (r : Recent). not (str_eq r.key item.key)) recent)

abbrev pub keeps : String → List Recent → Bool
keeps key [] = false
keeps key (r ∷ rs) = str_eq r.key key || keeps key rs

abbrev pub distinct_keys : List Recent → Bool
distinct_keys [] = true
distinct_keys (r ∷ rs) = not (keeps r.key rs) && distinct_keys rs

keeps-keep_if :
    (key gone : String) (rs : List Recent)
    → keeps key rs ≡ false
    → keeps key (keep_if (λ (r : Recent). not (str_eq r.key gone)) rs) ≡ false
keeps-keep_if key gone [] h = refl
keeps-keep_if key gone (r ∷ rs) h = ground (arith, h, keeps-keep_if key gone rs)

keep_if-gone :
    (key : String) (rs : List Recent)
    → keeps key (keep_if (λ (r : Recent). not (str_eq r.key key)) rs) ≡ false
keep_if-gone key [] = refl
keep_if-gone key (r ∷ rs) = ground (arith, keep_if-gone key rs)

distinct_keys-keep_if :
    (key : String) (rs : List Recent)
    → distinct_keys rs ≡ true
    → distinct_keys (keep_if (λ (r : Recent). not (str_eq r.key key)) rs) ≡ true
distinct_keys-keep_if key [] h = refl
distinct_keys-keep_if key (r ∷ rs) h =
    ground (arith, h, distinct_keys-keep_if key rs, keeps-keep_if r.key key rs)

keeps-take :
    (key : String) (n : ℕ) (rs : List Recent) → keeps key rs ≡ false → keeps key (take n rs) ≡ false
keeps-take key zero rs h = refl
keeps-take key (suc n) [] h = refl
keeps-take key (suc n) (r ∷ rs) h = ground (arith, h, keeps-take key n rs)

distinct_keys-take :
    (n : ℕ) (rs : List Recent) → distinct_keys rs ≡ true → distinct_keys (take n rs) ≡ true
distinct_keys-take zero rs h = refl
distinct_keys-take (suc n) [] h = refl
distinct_keys-take (suc n) (r ∷ rs) h =
    ground (arith, h, distinct_keys-take n rs, keeps-take r.key n rs)

-- What is kept has no key twice, and the last search comes first.
pub search_recent_push-distinct :
    (item : Recent) (recent : List Recent)
    → distinct_keys recent ≡ true
    → distinct_keys (search_recent_push item recent) ≡ true
unfolding search_recent_push
search_recent_push-distinct item recent h =
    distinct_keys-take 6 (item ∷ keep_if (λ (r : Recent). not (str_eq r.key item.key)) recent)
      (ground (arith, keep_if-gone item.key recent, distinct_keys-keep_if item.key recent h))
