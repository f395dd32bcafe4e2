-- ===== src/Layers/Once.antt =====
-- What `loadBboxLayer` promises: every feature once, a tile called for again if it is not complete, and
-- not for ever.
use siedler_sterreich.Prelude.{
  ℕ, ◌+◌, ◌≤◌, ◌<◌, String, Bool, false, not, ◌&&◌, ◌||◌, List, [], ◌∷◌, ◌++◌, Option, none, some,
  or_else, has, add, has-add, has-delete, lookup-insert, length, length-append, ◌≡◌, refl, ◌∙◌, ap,
  arith, eq_iff, str_eq, str_eq_refl, leb, Bool-cases, inl, inr, if_split, if◌then◌else◌,
}
use siedler_sterreich.Claims.{is_text}
use siedler_sterreich.Cadastre.Merge.Unique.{Unique, Unique-snoc}
use siedler_sterreich.Layers.{
  Layer, LayerRow, LayerReply, throws, nothing, got, Loaded, is_partial, attempts_of, retry_layer,
  is_usable, add_row, add_rows, receive_layer, load_bbox_layer,
}

module _ {ℓ} {A : Type ℓ} where
  unfoldable pub names : List (String × A) → List String
  names [] = []
  names (f ∷ fs) = f.0 ∷ names fs

  names-append : (fs gs : List (String × A)) → names (fs ++ gs) ≡ names fs ++ names gs
  unfolding names
  names-append [] gs = refl
  names-append (f ∷ fs) gs = rw (names-append fs gs)

  -- `ids` holds the ids of the features, in order and each once.
  pub record IsListed (l : Layer A) : Type ℓ where
    pub in_step : names l.features ≡ l.ids
    pub unique : Unique l.ids

  pub record Adds (l : Layer A) (r : Layer A × ℕ) (n : ℕ) : Type ℓ where
    pub listed : IsListed r.0
    pub count : length r.0.ids + n ≡ length l.ids + r.1
    pub tiles : r.0.tiles ≡ l.tiles

  add_row-Adds :
      (any_geom : Bool) (it : LayerRow A) (l : Layer A) (n : ℕ)
      → IsListed l
      → Adds l (add_row any_geom it (l, n)) n
  unfolding add_row names
  add_row-Adds any_geom it l n m =
      if_split (λ r. Adds l r n)
        (is_usable any_geom it.geometry && is_text it.id && not (has it.id l.ids))
        (λ h.
          let fresh : has it.id l.ids ≡ false = ground (arith, h) in
          record {
            listed = record {
              in_step = names-append l.features _ ∙ ap (λ xs. xs ++ it.id ∷ []) m.in_step;
              unique = Unique-snoc it.id l.ids m.unique fresh;
            };
            count = omega (arith, length-append l.ids (it.id ∷ []));
            tiles = refl;
          })
        (λ h. record { listed = m; count = refl; tiles = refl })

  pub add_rows-Adds :
      (any_geom : Bool) (its : List (LayerRow A)) (l : Layer A) (n : ℕ)
      → IsListed l
      → Adds l (add_rows any_geom its (l, n)) n
  unfolding add_rows
  add_rows-Adds any_geom [] l n m = record { listed = m; count = refl; tiles = refl }
  add_rows-Adds any_geom (it ∷ its) l n m =
      let here = add_row-Adds any_geom it l n m in
      let next = add_row any_geom it (l, n) in
      let rest = add_rows-Adds any_geom its next.0 next.1 here.listed in
      record {
        listed = rest.listed;
        count = omega (arith, here.count, rest.count);
        tiles = rest.tiles ∙ here.tiles;
      }

  -- The reply completes its tile.
  abbrev pub completes : LayerReply A → Bool
  completes throws = false
  completes nothing = false
  completes (got d) = not (is_partial d)

  -- What a call leaves behind from the layer `l`, in which the tile `key` is taken.
  pub record Fills (key : String) (complete : Bool) (l : Layer A) (r : Loaded A) : Type ℓ where
    pub listed : IsListed r.layer
    pub count : length r.layer.ids ≡ length l.ids + r.added
    pub taken :
        (k : String)
        → has k r.layer.tiles ≡ (if str_eq key k && not complete then false else has k l.tiles)

  pub retry_layer-Fills :
      (is_down : Bool) (retry : Option ℕ) (jitter : ℕ) (key : String) (l : Layer A)
      → IsListed l
      → Fills key false l (retry_layer is_down retry jitter key l)
  unfolding retry_layer
  retry_layer-Fills is_down retry jitter key l m =
      if_split (Fills key false l) (leb (attempts_of key l + 1) (if is_down then 6 else 3))
        (λ _. record {
          listed = record { in_step = m.in_step; unique = m.unique };
          count = omega arith;
          taken = λ k. ground (arith, has-delete key k l.tiles);
        })
        (λ _. record {
          listed = record { in_step = m.in_step; unique = m.unique };
          count = omega arith;
          taken = λ k. ground (arith, has-delete key k l.tiles);
        })

  receive_layer-Fills :
      (any_geom : Bool) (jitter : ℕ) (key : String) (reply : LayerReply A) (l : Layer A)
      → IsListed l
      → Fills key (completes reply) l (receive_layer any_geom jitter key reply l)
  unfolding receive_layer
  receive_layer-Fills any_geom jitter key throws l m = record {
    listed = record { in_step = m.in_step; unique = m.unique };
    count = omega arith;
    taken = λ k. ground (arith, has-delete key k l.tiles);
  }
  receive_layer-Fills any_geom jitter key nothing l m = retry_layer-Fills false none jitter key l m
  receive_layer-Fills any_geom jitter key (got d) l m = elim (Bool-cases (is_partial d)) [
    | inl p ↦ rw p (retry_layer-Fills d.down d.retry_after_s jitter key l m)
    | inr p ↦
        let a = add_rows-Adds any_geom (or_else d.rows []) l 0 m in
        rw p (record {
          listed = a.listed;
          count = omega (arith, a.count);
          taken = λ k. ground (arith, ap (has k) a.tiles);
        })
  ]

  -- Whatever the reply is, a call keeps every feature listed once: if `ids` holds the ids of the
  -- features, in order and each once, before the call, it does so after it, and the `added` that it
  -- returns is the number of features that are new.
  pub load_bbox_layer-IsListed :
      (any_geom : Bool) (jitter : ℕ) (key : String) (reply : LayerReply A) (l : Layer A)
      → IsListed l
      → IsListed (load_bbox_layer any_geom jitter key reply l).layer
        × (length (load_bbox_layer any_geom jitter key reply l).layer.ids
            ≡ length l.ids + (load_bbox_layer any_geom jitter key reply l).added)
  unfolding load_bbox_layer
  load_bbox_layer-IsListed any_geom jitter key reply l m =
      if_split {A = Loaded A}
        (λ r. IsListed r.layer × (length r.layer.ids ≡ length l.ids + r.added)) (has key l.tiles)
        (λ _. (m, omega arith))
        (λ _.
          let f =
            receive_layer-Fills any_geom jitter key reply (record l { tiles = add key l.tiles })
              (record { in_step = m.in_step; unique = m.unique }) in
          (f.listed, f.count))

  -- After a call the tile is marked as loaded exactly if it was so before or the reply completes it, and
  -- every other tile is as it was, from a layer where every feature is listed once.
  pub load_bbox_layer-tiles :
      (any_geom : Bool) (jitter : ℕ) (key : String) (reply : LayerReply A) (l : Layer A)
      (k : String)
      → IsListed l
      → has k (load_bbox_layer any_geom jitter key reply l).layer.tiles
        ≡ (if str_eq key k then has key l.tiles || completes reply else has k l.tiles)
  unfolding load_bbox_layer
  load_bbox_layer-tiles any_geom jitter key reply l k m =
      if_split {A = Loaded A}
        (λ r.
          has k r.layer.tiles
          ≡ (if str_eq key k then has key l.tiles || completes reply else has k l.tiles))
        (has key l.tiles) (λ h. ground (arith, h, eq_iff key k))
        (λ h.
          let f =
            receive_layer-Fills any_geom jitter key reply (record l { tiles = add key l.tiles })
              (record { in_step = m.in_step; unique = m.unique }) in
          ground (arith, h, f.taken k, has-add key k l.tiles, completes reply))

  retry_layer-timer :
      (is_down : Bool) (retry : Option ℕ) (jitter : ℕ) (key : String) (l : Layer A) (wait : ℕ)
      → (retry_layer is_down retry jitter key l).timer ≡ some wait
      → (attempts_of key (retry_layer is_down retry jitter key l).layer ≡ attempts_of key l + 1)
        × (attempts_of key l < 6)
  unfolding retry_layer
  retry_layer-timer is_down retry jitter key l wait h =
      ground (arith, h, lookup-insert key key (attempts_of key l + 1) l.attempts, str_eq_refl key)

  receive_layer-timer :
      (any_geom : Bool) (jitter : ℕ) (key : String) (reply : LayerReply A) (l : Layer A) (wait : ℕ)
      → (receive_layer any_geom jitter key reply l).timer ≡ some wait
      → (attempts_of key (receive_layer any_geom jitter key reply l).layer ≡ attempts_of key l + 1)
        × (attempts_of key l < 6)
  unfolding receive_layer
  receive_layer-timer any_geom jitter key throws l wait h = cc
  receive_layer-timer any_geom jitter key nothing l wait h =
      retry_layer-timer false none jitter key l wait h
  receive_layer-timer any_geom jitter key (got d) l wait h =
      ground (arith, h, retry_layer-timer d.down d.retry_after_s jitter key l wait)

  -- A call that sets a timer has counted one more attempt of its tile, and it is the sixth at most.
  pub load_bbox_layer-timer :
      (any_geom : Bool) (jitter : ℕ) (key : String) (reply : LayerReply A) (l : Layer A) (wait : ℕ)
      → (load_bbox_layer any_geom jitter key reply l).timer ≡ some wait
      → (attempts_of key (load_bbox_layer any_geom jitter key reply l).layer
          ≡ attempts_of key l + 1)
        × (attempts_of key (load_bbox_layer any_geom jitter key reply l).layer ≤ 6)
  unfolding load_bbox_layer
  load_bbox_layer-timer any_geom jitter key reply l wait h = ground (
    arith,
    h,
    receive_layer-timer any_geom jitter key reply (record l { tiles = add key l.tiles }) wait,
  )
