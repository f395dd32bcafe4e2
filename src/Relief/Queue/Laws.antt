-- ===== src/Relief/Queue/Laws.antt =====
-- The queue counts its requests, and asks for no tile object twice at a time.
use siedler_sterreich.Prelude.{
  ℕ, ◌+◌, ◌≤◌, ◌<◌, Bool, true, false, List, [], ◌∷◌, ◌++◌, is_some, ◌≡◌, ◌⊎◌, refl, ◌∙◌, sym, ap,
  arith, ltb, ◌==◌, length, length-append, keep_if, if_split,
}
use siedler_sterreich.Relief.{Tile, TileRange, Tileq, idle}
use siedler_sterreich.Relief.Queue.{
  put, set_state, is_queued, is_loading, count, sort_by_distance, insert_by_distance, distance,
  drop_far, Kept, begin_fetch, launch, fetch_near, tile_pump, tile_needed, is_waiting, max_inflight,
}

abbrev pub one_if : Bool → ℕ
one_if true = 1
one_if false = 0

-- The counter is the number of running requests, eight at most, the back-off is at most 30 s, a tile object is once
-- in the queue if it is queued and else never, and the same for the requests and tiles that load.
pub record Counts (tiles : ℕ → Tile) (made : ℕ) (listed : List ℕ) (inflight : ℕ)
    (flights queue : List ℕ) (backoff : ℕ) : Type 0 where
  pub counted : inflight ≡ length flights
  pub bounded : inflight ≤ 8
  pub capped : backoff ≤ 30
  pub waits_once : (r : ℕ) → count r queue ≡ one_if (is_queued (tiles r).state)
  pub flies_once : (r : ℕ) → count r flights ≡ one_if (is_loading (tiles r).state)
  pub unborn_idle : (r : ℕ) → made ≤ r → (tiles r).state ≡ idle
  pub listed_born : (r : ℕ) → made ≤ r → count r listed ≡ 0

abbrev pub IsCounted : Tileq → Type 0
IsCounted s = Counts s.tiles s.made s.listed s.inflight s.flights s.queue s.backoff

pub count-append : (r : ℕ) (xs ys : List ℕ) → count r (xs ++ ys) ≡ count r xs + count r ys
unfolding count
count-append r [] ys = omega arith
count-append r (x ∷ xs) ys = omega (arith, count-append r xs ys)

pub count-keep_if : (f : ℕ → Bool) (r : ℕ) (xs : List ℕ) → count r (keep_if f xs) ≤ count r xs
unfolding count
count-keep_if f r [] = omega arith
count-keep_if f r (x ∷ xs) = ground (arith, count-keep_if f r xs)

count-insert_by_distance :
    (range : TileRange) (tiles : ℕ → Tile) (q r : ℕ) (xs : List ℕ)
    → count q (insert_by_distance range tiles r xs) ≡ count q (r ∷ xs)
unfolding insert_by_distance count
count-insert_by_distance range tiles q r [] = refl
count-insert_by_distance range tiles q r (x ∷ xs) =
    if_split (λ l. count q l ≡ count q (r ∷ x ∷ xs))
      (ltb (distance range (tiles x)) (distance range (tiles r)))
      (λ _. omega (arith, count-insert_by_distance range tiles q r xs)) (λ _. refl)

count-sort_by_distance :
    (range : TileRange) (tiles : ℕ → Tile) (q : ℕ) (xs : List ℕ)
    → count q (sort_by_distance range tiles xs) ≡ count q xs
unfolding sort_by_distance count
count-sort_by_distance range tiles q [] = refl
count-sort_by_distance range tiles q (x ∷ xs) = omega (
  arith,
  count-sort_by_distance range tiles q xs,
  count-insert_by_distance range tiles q x (sort_by_distance range tiles xs),
)

pub begin_fetch-IsCounted :
    (r : ℕ) (rest : List ℕ) (s : Tileq)
    → IsCounted (record s { queue = r ∷ rest })
    → s.inflight < 8
    → IsCounted (begin_fetch r rest s)
unfolding put count
begin_fetch-IsCounted r rest s c room = record {
  counted = omega (arith, c.counted, length-append s.flights (r ∷ []));
  bounded = omega (arith, room);
  capped = c.capped;
  waits_once = λ q. ground (arith, c.waits_once q);
  flies_once =
      λ q. ground (arith, c.waits_once q, c.flies_once q, count-append q s.flights (r ∷ []));
  unborn_idle = λ q le. ground (arith, c.waits_once q, c.unborn_idle q le);
  listed_born = c.listed_born;
}

launch-IsCounted :
    (rest : List ℕ) (s : Tileq) → IsCounted (record s { queue = rest }) → IsCounted (launch rest s)
unfolding launch
launch-IsCounted [] s c = c
launch-IsCounted (r ∷ rest) s c =
    if_split IsCounted (ltb s.inflight max_inflight)
      (λ room.
        launch-IsCounted rest (begin_fetch r rest s)
          (begin_fetch-IsCounted r rest s c (ground (arith, room))))
      (λ _. c)

-- A filtered queue: with `c` tiles counted elsewhere, the queued tiles are those counted there or left.
drop_far-count :
    (range : TileRange) (rs : List ℕ) (tiles : ℕ → Tile) (c : ℕ → ℕ)
    → ((q : ℕ) → c q + count q rs ≡ one_if (is_queued (tiles q).state))
    → (q : ℕ)
    → c q + count q (drop_far range rs tiles).queue
      ≡ one_if (is_queued ((drop_far range rs tiles).tiles q).state)
unfolding drop_far put count
drop_far-count range [] tiles c h q = h q
drop_far-count range (r ∷ rs) tiles c h q =
    if_split {A = Kept} (λ k. c q + count q k.queue ≡ one_if (is_queued (k.tiles q).state))
      (tile_needed range (tiles r))
      (λ _.
        let rest =
          drop_far-count range rs tiles (λ i. c i + one_if (r == i)) (λ i. ground (arith, h i)) q in
        ground (arith, rest))
      (λ _. drop_far-count range rs (set_state r idle tiles) c (λ i. ground (arith, h i)) q)

-- Only tiles that are queued change.
drop_far-others :
    (range : TileRange) (rs : List ℕ) (tiles : ℕ → Tile) (q : ℕ)
    → count q rs ≡ 0
    → (drop_far range rs tiles).tiles q ≡ tiles q
unfolding drop_far put count
drop_far-others range [] tiles q h = refl
drop_far-others range (r ∷ rs) tiles q h =
    if_split {A = Kept} (λ k. k.tiles q ≡ tiles q) (tile_needed range (tiles r))
      (λ _. drop_far-others range rs tiles q (ground (arith, h)))
      (λ _.
        drop_far-others range rs (set_state r idle tiles) q (ground (arith, h)) ∙ ground (arith, h))

drop_far-loading :
    (range : TileRange) (rs : List ℕ) (tiles : ℕ → Tile) (q : ℕ)
    → (count q rs ≡ 0) ⊎ (is_loading (tiles q).state ≡ false)
    → is_loading ((drop_far range rs tiles).tiles q).state ≡ is_loading (tiles q).state
unfolding drop_far put count
drop_far-loading range [] tiles q h = refl
drop_far-loading range (r ∷ rs) tiles q h =
    if_split {A = Kept} (λ k. is_loading (k.tiles q).state ≡ is_loading (tiles q).state)
      (tile_needed range (tiles r)) (λ _. drop_far-loading range rs tiles q (ground (arith, h)))
      (λ _.
        drop_far-loading range rs (set_state r idle tiles) q (ground (arith, h))
        ∙ ground (arith, h))

fetch_near-IsCounted :
    (range : TileRange) (s : Tileq) → IsCounted s → IsCounted (fetch_near range s)
unfolding fetch_near
fetch_near-IsCounted range s c =
    let kept = drop_far range s.queue s.tiles in
    launch-IsCounted (sort_by_distance range kept.tiles kept.queue)
      (record s {
        tiles = kept.tiles;
        stats = record s.stats { dropped = s.stats.dropped + kept.dropped };
      })
      (record {
        counted = c.counted;
        bounded = c.bounded;
        capped = c.capped;
        waits_once = λ q. omega (
          arith,
          count-sort_by_distance range kept.tiles q kept.queue,
          drop_far-count range s.queue s.tiles (λ _. 0) (λ i. omega (arith, c.waits_once i)) q,
        );
        flies_once = λ q.
            c.flies_once q
            ∙ ap one_if
                (sym (drop_far-loading range s.queue s.tiles q (ground (arith, c.waits_once q))));
        unborn_idle = λ q le.
            ap (λ t. t.state)
              (drop_far-others range s.queue s.tiles q
                (ground (arith, c.waits_once q, c.unborn_idle q le)))
            ∙ c.unborn_idle q le;
        listed_born = c.listed_born;
      })

pub tile_pump-IsCounted :
    (range : TileRange) (now : ℕ) (s : Tileq) → IsCounted s → IsCounted (tile_pump range now s)
unfolding tile_pump
tile_pump-IsCounted range now s c =
    if_split IsCounted (ltb now s.pause_until)
      (λ _. if_split IsCounted (is_some s.timer) (λ _. c) (λ _. c))
      (λ _. if_split IsCounted (is_waiting s.queue) (λ _. fetch_near-IsCounted range s c) (λ _. c))
