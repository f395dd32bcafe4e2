-- ===== src/Tests/Loading.antt =====
-- Requests, rounds and layers that meet pending and failing answers.
use siedler_sterreich.Prelude.{
  ℕ, zero, suc, lookup, ◌+◌, String, Bool, true, false, not, ◌&&◌, ◌||◌, has, List, ◌++◌, [], ◌∷◌,
  none, some, length, ◌≡◌, ◌≢◌, refl,
}
use siedler_sterreich.Geometry.{polygon}
use siedler_sterreich.Api.{Exchange, accepted, answered, api, budget_of}
use siedler_sterreich.Api.Budget.{InBudget, api-InBudget}
use siedler_sterreich.Layers.{Layer, LayerRow, LayerReply, got, load_bbox_layer}
use siedler_sterreich.Layers.Once.{IsListed, names, completes}
use siedler_sterreich.Layers.Complete.{is_offered, rows_in, load_bbox_layer-IsComplete}
use siedler_sterreich.Cadastre.Rows.{throws}
use siedler_sterreich.Cadastre.Merge.Unique.{IsMerged}
use siedler_sterreich.Cadastre.Load.{Outcome}
use siedler_sterreich.Cadastre.Load.Retry.{Session, Round, out_of_fuel, poll}
use siedler_sterreich.Cadastre.Load.Retry.Bounded.{poll-ends}
use siedler_sterreich.Tests.Cadastre.{empty_store, empty_store-IsMerged}

-- Two answers that are pending, then a body.
abbrev exchange : ℕ → Exchange ℕ
exchange zero = record { response = accepted none 0 5; took = 200 }
exchange (suc zero) = record { response = accepted (some 1) 20 0; took = 200 }
exchange _ = record { response = answered 7; took = 100 }

api-InBudget_example : InBudget (budget_of true none) (api true none exchange)
api-InBudget_example = api-InBudget true none exchange

-- Every request of the cell fails.
abbrev rounds : ℕ → Round
rounds i = record { reply = throws; jitter = 0; on_screen = true }

abbrev session : Session
session = record { store = empty_store; vp_retries = [] }

poll-ends_example :
    ((poll 11 rounds 0 "w" session).1 ≢ out_of_fuel)
    × IsMerged (poll 11 rounds 0 "w" session).0.store
poll-ends_example = poll-ends rounds "w" session empty_store-IsMerged

abbrev down_outcome : Outcome
down_outcome = record {
  added = 0;
  ready = false;
  truncated = false;
  cached = false;
  down = true;
  retry_after = some 60;
}

abbrev field_row : String → LayerRow ℕ
field_row id = record { id = id; geometry = some (polygon []); props = 1 }

abbrev fields : Bool → LayerReply ℕ
fields pending = got (record {
  pending = pending;
  ready_false = false;
  down = false;
  error = false;
  retry_after_s = none;
  rows = some (field_row "s1" ∷ field_row "s2" ∷ field_row "s1" ∷ []);
})

abbrev fresh_layer : Layer ℕ
fresh_layer = record { tiles = []; ids = []; attempts = []; features = [] }

fresh_layer-IsListed : IsListed fresh_layer
unfolding names
fresh_layer-IsListed = record { in_step = refl; unique = tt }

load_bbox_layer-IsComplete_example :
    IsListed (load_bbox_layer false 0 "w" (fields false) fresh_layer).layer
    × (length (load_bbox_layer false 0 "w" (fields false) fresh_layer).layer.ids
        ≡ length fresh_layer.ids + (load_bbox_layer false 0 "w" (fields false) fresh_layer).added)
    × (has "s2" (load_bbox_layer false 0 "w" (fields false) fresh_layer).layer.ids ≡ (
        has "s2" fresh_layer.ids
        || (not (has "w" fresh_layer.tiles)
            && completes (fields false)
            && is_offered false "s2" (rows_in (fields false)))))
    × ((new : List (String × ℕ)) × ((load_bbox_layer false 0 "w"
            (fields false)
            fresh_layer).layer.features
          ≡ fresh_layer.features ++ new))
load_bbox_layer-IsComplete_example =
    load_bbox_layer-IsComplete false 0 "w" (fields false) fresh_layer "s2" fresh_layer-IsListed

first_wait : (load_bbox_layer false 0 "w" (fields true) fresh_layer).timer ≡ some 4000
unfolding load_bbox_layer lookup
first_wait = refl
