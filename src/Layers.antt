-- ===== src/Layers.antt =====
-- srv/static/game.js: `loadBboxLayer`, the loader that the companion layers of a cell share. `Points` is
-- `loadPointLayer`, its sibling for points.
pub mod Complete
pub mod Once
pub mod Points
use siedler_sterreich.Prelude.{
  ℕ, ◌+◌, String, Bool, true, false, not, ◌&&◌, ◌||◌, List, [], ◌∷◌, ◌++◌, Option, none, some,
  is_some, or_else, has, add, delete, lookup, insert, leb, if◌then◌else◌,
}
use siedler_sterreich.Geometry.{Geometry, is_area_geom}
use siedler_sterreich.Claims.{is_text}
use siedler_sterreich.Cadastre.Load.Retry.{layer_retry_ms}

-- A row of the answer; `id` is what the layer's `idOf` makes of it, an empty text if it is falsy.
pub record LayerRow {ℓ} (A : Type ℓ) : Type ℓ where
  pub id : String
  pub geometry : Option Geometry
  pub props : A

-- `rows` is `data[o.key]`.
pub record LayerAnswer {ℓ} (A : Type ℓ) : Type ℓ where
  pub pending : Bool
  pub ready_false : Bool
  pub down : Bool
  pub error : Bool
  pub retry_after_s : Option ℕ
  pub rows : Option (List (LayerRow A))

pub data LayerReply {ℓ} (A : Type ℓ) : Type ℓ where
  throws nothing : LayerReply A
  got : LayerAnswer A → LayerReply A

-- What the layer keeps: `o.tiles`, `o.ids`, `o.attempts`, and the rows handed to `o.onFeature`. `loadN2K` is not such a
-- layer: its `ids` is a new set in each call.
pub record Layer {ℓ} (A : Type ℓ) : Type ℓ where
  pub tiles : List String
  pub ids : List String
  pub attempts : List (String × ℕ)
  pub features : List (String × A)

-- The layer, `added`, and the wait of the timer, if one is set.
pub record Loaded {ℓ} (A : Type ℓ) : Type ℓ where
  pub layer : Layer A
  pub added : ℕ
  pub timer : Option ℕ

-- `!it.geometry || (!o.anyGeom && !isAreaGeom(it.geometry))`, turned round.
unfoldable pub is_usable : Bool → Option Geometry → Bool
unfolding is_area_geom
is_usable any_geom none = false
is_usable any_geom (some g) = any_geom || is_area_geom g

module _ {ℓ} {A : Type ℓ} where
  -- The answer is not to be used yet.
  unfoldable pub is_partial : LayerAnswer A → Bool
  is_partial d = d.pending || d.ready_false || d.down || (d.error && not (is_some d.rows))

  abbrev pub attempts_of : String → Layer A → ℕ
  attempts_of key l = or_else (lookup key l.attempts) 0

  -- The tile is released, and called for again a few times.
  unfoldable pub retry_layer : Bool → Option ℕ → ℕ → String → Layer A → Loaded A
  unfolding delete insert layer_retry_ms
  retry_layer is_down retry jitter key l =
      let released : Layer A = record l { tiles = delete key l.tiles } in
      let attempt = attempts_of key l + 1 in
      if leb attempt (if is_down then 6 else 3)
      then record {
        layer = record released { attempts = insert key attempt l.attempts };
        added = 0;
        timer = some (layer_retry_ms is_down retry attempt jitter);
      }
      else record { layer = released; added = 0; timer = none }

  -- One round of the loop over the rows, with its count.
  unfoldable pub add_row : Bool → LayerRow A → Layer A × ℕ → Layer A × ℕ
  unfolding is_usable has
  add_row any_geom it (l, n) =
      if is_usable any_geom it.geometry && is_text it.id && not (has it.id l.ids)
      then (
        record l { ids = l.ids ++ it.id ∷ []; features = l.features ++ (it.id, it.props) ∷ [] },
        n + 1,
      )
      else (l, n)

  unfoldable pub add_rows : Bool → List (LayerRow A) → Layer A × ℕ → Layer A × ℕ
  unfolding add_row
  add_rows any_geom [] s = s
  add_rows any_geom (it ∷ its) s = add_rows any_geom its (add_row any_geom it s)

  unfoldable pub receive_layer : Bool → ℕ → String → LayerReply A → Layer A → Loaded A
  unfolding delete retry_layer is_partial add_rows
  receive_layer any_geom jitter key throws l = record {
    layer = record l { tiles = delete key l.tiles };
    added = 0;
    timer = none;
  }
  receive_layer any_geom jitter key nothing l = retry_layer false none jitter key l
  receive_layer any_geom jitter key (got d) l =
      if is_partial d
      then retry_layer d.down d.retry_after_s jitter key l
      else let (filled, added) = add_rows any_geom (or_else d.rows []) (l, 0) in
        record { layer = filled; added = added; timer = none }

  -- `loadBboxLayer(b, o)` for the tile `key`, with the reply of its request; `jitter` as in
  -- `layerRetryMs`.
  unfoldable pub load_bbox_layer : Bool → ℕ → String → LayerReply A → Layer A → Loaded A
  unfolding has add receive_layer
  load_bbox_layer any_geom jitter key reply l =
      if has key l.tiles
      then record { layer = l; added = 0; timer = none }
      else receive_layer any_geom jitter key reply (record l { tiles = add key l.tiles })
