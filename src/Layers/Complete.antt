-- ===== src/Layers/Complete.antt =====
-- `loadBboxLayer` hands on all that an answer has. This is about the layers that keep `ids` from call to call and add each
-- row in `onFeature`; `loadN2K` gives a new set of ids in each call, and its `onFeature` leaves out the sites it has.
use mathlib.Core.List.{append-nil, append_assoc}
use siedler_sterreich.Prelude.{
  ℕ, ◌+◌, String, Bool, false, not, ◌&&◌, ◌||◌, List, [], ◌∷◌, ◌++◌, none, Option, leb, has, add,
  has-append, length, ◌≡◌, refl, arith, eq_iff, str_eq, if_split, if_split_both, Bool-cases, inl,
  inr, sym, ◌∙◌, ap, or_else, if◌then◌else◌,
}
use siedler_sterreich.Claims.{is_text}
use siedler_sterreich.Layers.{
  Layer, LayerRow, LayerReply, throws, nothing, got, Loaded, is_partial, retry_layer, attempts_of,
  is_usable, add_row, add_rows, receive_layer, load_bbox_layer,
}
use siedler_sterreich.Layers.Once.{IsListed, completes, load_bbox_layer-IsListed}

module _ {ℓ} {A : Type ℓ} where
  -- A row with this id that the layer can use.
  pub is_offered : Bool → String → List (LayerRow A) → Bool
  is_offered any_geom k [] = false
  is_offered any_geom k (it ∷ its) =
      (is_usable any_geom it.geometry && is_text it.id && str_eq it.id k)
      || is_offered any_geom k its

  abbrev pub rows_in : LayerReply A → List (LayerRow A)
  rows_in throws = []
  rows_in nothing = []
  rows_in (got d) = or_else d.rows []

  -- What the rows add to a layer.
  record Gains (any_geom : Bool) (its : List (LayerRow A)) (l m : Layer A) : Type ℓ where
    ids : (k : String) → has k m.ids ≡ (has k l.ids || is_offered any_geom k its)
    kept : (new : List (String × A)) × (m.features ≡ l.features ++ new)

  add_row-Gains :
      (any_geom : Bool) (it : LayerRow A) (l : Layer A) (n : ℕ)
      → Gains any_geom (it ∷ []) l (add_row any_geom it (l, n)).0
  unfolding add_row is_offered
  add_row-Gains any_geom it l n =
      if_split {A = Layer A × ℕ} (λ r. Gains any_geom (it ∷ []) l r.0)
        (is_usable any_geom it.geometry && is_text it.id && not (has it.id l.ids))
        (λ h. record {
          ids = λ k. ground (arith, h, has-append k l.ids (it.id ∷ []));
          kept = ((it.id, it.props) ∷ [], refl);
        })
        (λ h. record {
          ids = λ k. ground (arith, h, eq_iff it.id k);
          kept = ([], sym (append-nil l.features));
        })

  chain-Gains :
      (any_geom : Bool) (it : LayerRow A) (its : List (LayerRow A)) (l m n : Layer A)
      → Gains any_geom (it ∷ []) l m
      → Gains any_geom its m n
      → Gains any_geom (it ∷ its) l n
  unfolding is_offered
  chain-Gains any_geom it its l m n here rest = record {
    ids = λ k. ground (arith, here.ids k, rest.ids k);
    kept = (
      here.kept.0 ++ rest.kept.0,
      rest.kept.1
          ∙ ap (λ fs. fs ++ rest.kept.0) here.kept.1
          ∙ append_assoc l.features here.kept.0 rest.kept.0,
    );
  }

  same-Gains :
      (any_geom : Bool) (l m : Layer A)
      → m.ids ≡ l.ids
      → m.features ≡ l.features
      → Gains any_geom [] l m
  unfolding is_offered
  same-Gains any_geom l m i f = record {
    ids = λ k. ground (arith, ap (has k) i);
    kept = ([], f ∙ sym (append-nil l.features));
  }

  add_rows-Gains :
      (any_geom : Bool) (its : List (LayerRow A)) (l : Layer A) (n : ℕ)
      → Gains any_geom its l (add_rows any_geom its (l, n)).0
  unfolding add_rows
  add_rows-Gains any_geom [] l n = same-Gains any_geom l l refl refl
  add_rows-Gains any_geom (it ∷ its) l n =
      let next = add_row any_geom it (l, n) in
      chain-Gains any_geom it its l next.0 (add_rows any_geom its next).0
        (add_row-Gains any_geom it l n) (add_rows-Gains any_geom its next.0 next.1)

  retry_layer-Gains :
      (any_geom is_down : Bool) (retry : Option ℕ) (jitter : ℕ) (key : String) (l : Layer A)
      → Gains any_geom [] l (retry_layer is_down retry jitter key l).layer
  unfolding retry_layer
  retry_layer-Gains any_geom is_down retry jitter key l =
      if_split {A = Loaded A} (λ r. Gains any_geom [] l r.layer)
        (leb (attempts_of key l + 1) (if is_down then 6 else 3))
        (λ _. same-Gains any_geom l _ refl refl) (λ _. same-Gains any_geom l _ refl refl)

  -- The rows that a call adds: those of a reply that completes the tile.
  abbrev pub added_rows : LayerReply A → List (LayerRow A)
  added_rows reply = if completes reply then rows_in reply else []

  receive_layer-Gains :
      (any_geom : Bool) (jitter : ℕ) (key : String) (reply : LayerReply A) (l : Layer A)
      → Gains any_geom (added_rows reply) l (receive_layer any_geom jitter key reply l).layer
  unfolding receive_layer
  receive_layer-Gains any_geom jitter key throws l = same-Gains any_geom l _ refl refl
  receive_layer-Gains any_geom jitter key nothing l =
      retry_layer-Gains any_geom false none jitter key l
  receive_layer-Gains any_geom jitter key (got d) l = elim (Bool-cases (is_partial d)) [
    | inl p ↦ rw p (retry_layer-Gains any_geom d.down d.retry_after_s jitter key l)
    | inr p ↦ rw p (add_rows-Gains any_geom (or_else d.rows []) l 0)
  ]

  -- The rows that a call for the tile `key` adds to the layer `l`: none if the tile is taken.
  abbrev pub called_rows : String → LayerReply A → Layer A → List (LayerRow A)
  called_rows key reply l = if has key l.tiles then [] else added_rows reply

  load_bbox_layer-Gains :
      (any_geom : Bool) (jitter : ℕ) (key : String) (reply : LayerReply A) (l : Layer A)
      → Gains any_geom
          (called_rows key reply l)
          l
          (load_bbox_layer any_geom jitter key reply l).layer
  unfolding load_bbox_layer
  load_bbox_layer-Gains any_geom jitter key reply l =
      if_split_both {A = List (LayerRow A)} {B = Loaded A} (λ rs r. Gains any_geom rs l r.layer)
        (has key l.tiles) (λ _. same-Gains any_geom l l refl refl)
        (λ _.
          let g =
            receive_layer-Gains any_geom jitter key reply (record l { tiles = add key l.tiles }) in
          record { ids = g.ids; kept = g.kept })

  -- Where `ids` holds the ids of the rows handed to `onFeature`, in order and each once, it does so after a call too. The
  -- call hands on every row that the layer can use and has not, if its tile is not taken and the reply completes it, and
  -- no other: an id is there afterwards exactly if it was there before or such a row has it. What was handed on before
  -- stays, and the number that the call returns is by how much the ids have grown.
  pub load_bbox_layer-IsComplete :
      (any_geom : Bool) (jitter : ℕ) (key : String) (reply : LayerReply A) (l : Layer A)
      (k : String)
      → IsListed l
      → IsListed (load_bbox_layer any_geom jitter key reply l).layer
        × (length (load_bbox_layer any_geom jitter key reply l).layer.ids
            ≡ length l.ids + (load_bbox_layer any_geom jitter key reply l).added)
        × (has k (load_bbox_layer any_geom jitter key reply l).layer.ids ≡ (
            has k l.ids
            || (not (has key l.tiles) && completes reply && is_offered any_geom k (rows_in reply))))
        × ((new : List (String × A)) × ((load_bbox_layer any_geom jitter key reply l).layer.features
              ≡ l.features ++ new))
  unfolding is_offered
  load_bbox_layer-IsComplete any_geom jitter key reply l k m =
      let listed = load_bbox_layer-IsListed any_geom jitter key reply l m in
      let g = load_bbox_layer-Gains any_geom jitter key reply l in
      (listed.0, listed.1, ground (arith, g.ids k), g.kept)
