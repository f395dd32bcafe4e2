-- ===== src/Layers/Points.antt =====
-- `loadPointLayer`: as `loadBboxLayer`, but it takes any row with a place, and an answer with an error is not called
-- for again unless the service is down. The place of a row is its geometry.
use siedler_sterreich.Prelude.{
  ℕ, String, Bool, true, false, not, ◌||◌, List, [], none, or_else, has, add, delete, has-add,
  has-delete, length, ◌+◌, ◌≡◌, ap, arith, eq_iff, if_split, Bool-cases, inl, inr, if◌then◌else◌,
}
use siedler_sterreich.Layers.{
  Layer, LayerAnswer, LayerReply, LayerRow, throws, nothing, got, Loaded, retry_layer, add_rows,
}
use siedler_sterreich.Layers.Once.{IsListed, Fills, add_rows-Adds, retry_layer-Fills}

module _ {ℓ} {A : Type ℓ} where
  abbrev pub release : String → Layer A → Loaded A
  release key l = record {
    layer = record l { tiles = delete key l.tiles };
    added = 0;
    timer = none;
  }

  abbrev pub is_unfinished : LayerAnswer A → Bool
  is_unfinished d = d.pending || d.ready_false || d.error

  abbrev pub fill : List (LayerRow A) → Layer A → Loaded A
  fill rows l =
      let (filled, added) = add_rows true rows (l, 0) in
      record { layer = filled; added = added; timer = none }

  unfoldable pub receive_points : ℕ → String → LayerReply A → Layer A → Loaded A
  unfolding delete retry_layer add_rows
  receive_points jitter key throws l = release key l
  receive_points jitter key nothing l = retry_layer false none jitter key l
  receive_points jitter key (got d) l =
      if is_unfinished d
      then (if d.down || not d.error
          then retry_layer d.down d.retry_after_s jitter key l
          else release key l)
      else fill (or_else d.rows []) l

  -- `loadPointLayer(b, o)` for the tile `key`
  unfoldable pub load_point_layer : ℕ → String → LayerReply A → Layer A → Loaded A
  unfolding has add receive_points
  load_point_layer jitter key reply l =
      if has key l.tiles
      then record { layer = l; added = 0; timer = none }
      else receive_points jitter key reply (record l { tiles = add key l.tiles })

  abbrev pub completes_points : LayerReply A → Bool
  completes_points throws = false
  completes_points nothing = false
  completes_points (got d) = not (is_unfinished d)

  release-Fills : (key : String) (l : Layer A) → IsListed l → Fills key false l (release key l)
  release-Fills key l m = record {
    listed = record { in_step = m.in_step; unique = m.unique };
    count = omega arith;
    taken = λ k. ground (arith, has-delete key k l.tiles);
  }

  fill-Fills :
      (key : String) (rows : List (LayerRow A)) (l : Layer A)
      → IsListed l
      → Fills key true l (fill rows l)
  fill-Fills key rows l m =
      let a = add_rows-Adds true rows l 0 m in
      record {
        listed = a.listed;
        count = omega (arith, a.count);
        taken = λ k. ground (arith, ap (has k) a.tiles);
      }

  receive_points-Fills :
      (jitter : ℕ) (key : String) (reply : LayerReply A) (l : Layer A)
      → IsListed l
      → Fills key (completes_points reply) l (receive_points jitter key reply l)
  unfolding receive_points
  receive_points-Fills jitter key throws l m = release-Fills key l m
  receive_points-Fills jitter key nothing l m = retry_layer-Fills false none jitter key l m
  receive_points-Fills jitter key (got d) l m = elim (Bool-cases (is_unfinished d)) [
    | inl p ↦ rw p (
        if_split (Fills key false l) (d.down || not d.error)
          (λ _. retry_layer-Fills d.down d.retry_after_s jitter key l m)
          (λ _. release-Fills key l m))
    | inr p ↦ rw p (fill-Fills key (or_else d.rows []) l m)
  ]

  -- Whatever the reply is, a call keeps every point listed once, the `added` that it returns is the number of
  -- points that are new, and the tile is taken afterwards exactly if it was or if the reply completes it.
  pub load_point_layer-IsListed :
      (jitter : ℕ) (key : String) (reply : LayerReply A) (l : Layer A)
      → IsListed l
      → IsListed (load_point_layer jitter key reply l).layer
        × (length (load_point_layer jitter key reply l).layer.ids
            ≡ length l.ids + (load_point_layer jitter key reply l).added)
        × (has key (load_point_layer jitter key reply l).layer.tiles
            ≡ (has key l.tiles || completes_points reply))
  unfolding load_point_layer
  load_point_layer-IsListed jitter key reply l m =
      if_split {A = Loaded A}
        (λ r.
          IsListed r.layer
          × (length r.layer.ids ≡ length l.ids + r.added)
          × (has key r.layer.tiles ≡ (has key l.tiles || completes_points reply)))
        (has key l.tiles) (λ taken. (m, omega arith, ground (arith, taken)))
        (λ free.
          let f =
            receive_points-Fills jitter key reply (record l { tiles = add key l.tiles })
              (record { in_step = m.in_step; unique = m.unique }) in
          (
            f.listed,
            f.count,
            ground (arith, free, f.taken key, has-add key key l.tiles, eq_iff key key),
          ))
