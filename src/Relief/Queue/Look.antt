-- ===== src/Relief/Queue/Look.antt =====
-- A look-up of a tile, and the end of a request, leave the queue's counts right. When the map is full, a look-up
-- of a new tile drops that tile.
use siedler_sterreich.Prelude.{
  ℕ, ◌≤◌, ◌<◌, Bool, true, false, ◌&&◌, List, [], ◌∷◌, ◌++◌, none, some, ◌≡◌, refl, ◌∙◌, ap, arith,
  ltb, ◌==◌, length, length-append, All, All-keep_if, keep_if, find, take, if_split, option_split,
}
use siedler_sterreich.Relief.{Tile, Tileq, idle}
use siedler_sterreich.Relief.Queue.{
  put, is_queued, is_loading, count, evict, add_tile, use_tile, relief_tile, new_tile, can_ask,
  relief_max_tiles, is_tile, is_free, sort_by_at, insert_by_at,
}
use siedler_sterreich.Relief.Queue.Laws.{IsCounted, count-append, count-keep_if}

can_ask-Free :
    (now : ℕ) (t : Tile)
    → can_ask now t ≡ true
    → (is_queued t.state ≡ false) × (is_loading t.state ≡ false)
can_ask-Free now t e = (ground (arith, e), ground (arith, e))

use_tile-IsCounted :
    (r : ℕ) (want : Bool) (now : ℕ) (s : Tileq)
    → r < s.made
    → IsCounted s
    → IsCounted (use_tile r want now s)
unfolding use_tile put count
use_tile-IsCounted r want now s born c =
    let t : Tile = record (s.tiles r) { at = now } in
    if_split IsCounted (want && can_ask now t)
      (λ e.
        let free = can_ask-Free now t (ground (arith, e)) in
        record {
          counted = c.counted;
          bounded = c.bounded;
          capped = c.capped;
          waits_once = λ q. ground (arith, free, c.waits_once q, count-append q s.queue (r ∷ []));
          flies_once = λ q. ground (arith, free, c.flies_once q);
          unborn_idle = λ q le. ground (arith, born, c.unborn_idle q le);
          listed_born = c.listed_born;
        })
      (λ _. record {
        counted = c.counted;
        bounded = c.bounded;
        capped = c.capped;
        waits_once = λ q. ground (arith, c.waits_once q);
        flies_once = λ q. ground (arith, c.flies_once q);
        unborn_idle = λ q le. ground (arith, born, c.unborn_idle q le);
        listed_born = c.listed_born;
      })

find-count : (f : ℕ → Bool) (xs : List ℕ) (r : ℕ) → find f xs ≡ some r → 1 ≤ count r xs
unfolding count
find-count f [] r h = cc
find-count f (x ∷ xs) r h = ground (arith, h, find-count f xs r)

evict-count :
    (q : ℕ) (tiles : ℕ → Tile) (listed : List ℕ) → count q (evict tiles listed) ≤ count q listed
unfolding evict
evict-count q tiles listed =
    count-keep_if
      (λ r. count r (take 50 (sort_by_at tiles (keep_if (λ i. is_free (tiles i)) listed))) == 0) q
      listed

add_tile-made : (z x y : ℕ) (s : Tileq) → s.made < (add_tile z x y s).made
unfolding add_tile
add_tile-made z x y s = omega arith

add_tile-IsCounted : (z x y : ℕ) (s : Tileq) → IsCounted s → IsCounted (add_tile z x y s)
unfolding add_tile put count
add_tile-IsCounted z x y s c =
    let tiles = put s.made (new_tile z x y) s.tiles in
    let listed = s.listed ++ s.made ∷ [] in
    record {
      counted = c.counted;
      bounded = c.bounded;
      capped = c.capped;
      waits_once = λ q. ground (arith, c.waits_once q, c.unborn_idle q);
      flies_once = λ q. ground (arith, c.flies_once q, c.unborn_idle q);
      unborn_idle = λ q le. ground (arith, c.unborn_idle q, le);
      listed_born = λ q le.
          if_split (λ l. count q l ≡ 0) (ltb relief_max_tiles (length listed))
            (λ _. ground (
              arith,
              evict-count q tiles listed,
              c.listed_born q,
              count-append q s.listed (s.made ∷ []),
              le,
            ))
            (λ _. ground (arith, c.listed_born q, count-append q s.listed (s.made ∷ []), le));
    }

pub relief_tile-IsCounted :
    (z x y : ℕ) (want : Bool) (now : ℕ) (s : Tileq)
    → IsCounted s
    → IsCounted (relief_tile z x y want now s)
unfolding relief_tile
relief_tile-IsCounted z x y want now s c =
    option_split IsCounted (find (λ r. is_tile z x y (s.tiles r)) s.listed)
      (use_tile-IsCounted s.made want now (add_tile z x y s) (add_tile-made z x y s)
        (add_tile-IsCounted z x y s c))
      (λ r e.
        use_tile-IsCounted r want now s
          (ground
            (arith, find-count (λ r. is_tile z x y (s.tiles r)) s.listed r e, c.listed_born r))
          c)

sort_by_at-head :
    (tiles : ℕ → Tile) (m : ℕ) (xs : List ℕ)
    → All (λ r. (tiles m).at < (tiles r).at) xs
    → sort_by_at tiles (xs ++ m ∷ []) ≡ m ∷ sort_by_at tiles xs
unfolding sort_by_at insert_by_at
sort_by_at-head tiles m [] p = refl
sort_by_at-head tiles m (x ∷ xs) p =
    ap (insert_by_at tiles x) (sort_by_at-head tiles m xs p.1) ∙ before p.0
  where
    before :
        (tiles m).at < (tiles x).at
        → insert_by_at tiles x (m ∷ sort_by_at tiles xs)
          ≡ m ∷ insert_by_at tiles x (sort_by_at tiles xs)
    before lt = ground (arith, lt)

keep_if-last :
    (f : ℕ → Bool) (m : ℕ) (xs : List ℕ)
    → f m ≡ true
    → keep_if f (xs ++ m ∷ []) ≡ keep_if f xs ++ m ∷ []
keep_if-last f m [] e = ground (arith, e)
keep_if-last f m (x ∷ xs) e = ground (arith, keep_if-last f m xs e)

count-keep_if_out : (f : ℕ → Bool) (m : ℕ) (xs : List ℕ) → f m ≡ false → count m (keep_if f xs) ≡ 0
unfolding count
count-keep_if_out f m [] e = refl
count-keep_if_out f m (x ∷ xs) e = ground (arith, e, count-keep_if_out f m xs e)

count_head : (m : ℕ) (rest : List ℕ) → (count m (m ∷ rest) == 0) ≡ false
unfolding count
count_head m rest = ground arith

-- The newest tile has not been used yet, so it is among those that go.
evict_newest :
    (tiles : ℕ → Tile) (m : ℕ) (xs : List ℕ)
    → is_free (tiles m) ≡ true
    → All (λ r. (tiles m).at < (tiles r).at) xs
    → count m (evict tiles (xs ++ m ∷ [])) ≡ 0
unfolding evict
evict_newest tiles m xs free p =
    count-keep_if_out (λ r. count r victims == 0) m (xs ++ m ∷ [])
      (victim victims (take 49 (sort_by_at tiles kept)) named)
  where
    kept : List ℕ
    kept = keep_if (λ r. is_free (tiles r)) xs

    victims : List ℕ
    victims = take 50 (sort_by_at tiles (keep_if (λ r. is_free (tiles r)) (xs ++ m ∷ [])))

    named : victims ≡ m ∷ take 49 (sort_by_at tiles kept)
    named =
        ap (λ l. take 50 (sort_by_at tiles l)) (keep_if-last (λ r. is_free (tiles r)) m xs free)
        ∙ ap (take 50) (
            sort_by_at-head tiles m kept
              (All-keep_if (λ r. (tiles m).at < (tiles r).at) (λ r. is_free (tiles r)) xs p))

    victim : (vs rest : List ℕ) → vs ≡ m ∷ rest → (count m vs == 0) ≡ false
    victim vs rest e = rw e (count_head m rest)

put_same :
    (tiles : ℕ → Tile) (m : ℕ) (t : Tile) (xs : List ℕ)
    → count m xs ≡ 0
    → All (λ r. 0 < (tiles r).at) xs
    → t.at ≡ 0
    → All (λ r. (put m t tiles m).at < (put m t tiles r).at) xs
unfolding put count
put_same tiles m t [] h p z = tt
put_same tiles m t (x ∷ xs) h p z =
    (ground (arith, h, p.0, z), put_same tiles m t xs (ground (arith, h)) p.1 z)

fresh_free :
    (m : ℕ) (t : Tile) (tiles : ℕ → Tile) → t.state ≡ idle → is_free (put m t tiles m) ≡ true
unfolding put
fresh_free m t tiles e = ground (arith, e)

use_tile-listed :
    (r : ℕ) (want : Bool) (now : ℕ) (s : Tileq) → (use_tile r want now s).listed ≡ s.listed
unfolding use_tile
use_tile-listed r want now s = ground arith

add_tile_full :
    (z x y : ℕ) (s : Tileq)
    → IsCounted s
    → 400 ≤ length s.listed
    → All (λ r. 0 < (s.tiles r).at) s.listed
    → count s.made (add_tile z x y s).listed ≡ 0
unfolding add_tile
add_tile_full z x y s c full used =
    if_split (λ l. count s.made l ≡ 0) (ltb relief_max_tiles (length (s.listed ++ s.made ∷ [])))
      (λ _.
        evict_newest (put s.made (new_tile z x y) s.tiles) s.made s.listed
          (fresh_free s.made (new_tile z x y) s.tiles refl)
          (put_same s.tiles s.made (new_tile z x y) s.listed (c.listed_born s.made (omega arith))
            used refl))
      (λ e. absurd (ground (arith, e, length-append s.listed (s.made ∷ []), full)))

-- A look-up of a tile that is not in a full map, whose tiles all have been used, leaves the map without that
-- tile too: what it makes is the first that the eviction takes.
pub relief_tile-full :
    (z x y : ℕ) (want : Bool) (now : ℕ) (s : Tileq)
    → IsCounted s
    → find (λ r. is_tile z x y (s.tiles r)) s.listed ≡ none
    → 400 ≤ length s.listed
    → All (λ r. 0 < (s.tiles r).at) s.listed
    → count s.made (relief_tile z x y want now s).listed ≡ 0
unfolding relief_tile
relief_tile-full z x y want now s c new full used =
    option_split {B = Tileq} (λ t. count s.made t.listed ≡ 0)
      (find (λ r. is_tile z x y (s.tiles r)) s.listed)
      (ap (count s.made) (use_tile-listed s.made want now (add_tile z x y s))
        ∙ add_tile_full z x y s c full used)
      (λ r e. absurd (cc (e, new)))
