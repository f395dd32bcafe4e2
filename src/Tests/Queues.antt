-- ===== src/Tests/Queues.antt =====
-- The herald in a conversation, and the tile queue with requests and with a full map.
use siedler_sterreich.Prelude.{
  ℕ, zero, suc, ◌+◌, ◌≤◌, ◌<◌, true, false, List, [], ◌∷◌, none, ◌≡◌, ◌⊎◌, refl, arith, length,
  find, All,
}
use siedler_sterreich.Herald.{Item, Surroundings, hint}
use siedler_sterreich.Herald.Queue.{enqueue, next}
use siedler_sterreich.Herald.Queue.Laws.{IsSteady}
use siedler_sterreich.Herald.Steps as Talk
use siedler_sterreich.Relief.{Tile, Tileq, TileRange, idle}
use siedler_sterreich.Relief.Queue.{relief_tile, tile_pump, is_tile, count}
use siedler_sterreich.Relief.Queue.Laws.{IsCounted}
use siedler_sterreich.Relief.Queue.Look.{relief_tile-full}
use siedler_sterreich.Relief.Steps.{
  nothing_yet, draws, settles, started, Goes, Reach-IsCounted, tile_pump-Goes,
}
use siedler_sterreich.Relief.Steps as Tiling

abbrev said : Item
said = record {
  key = "first_field";
  lines = record { html = "Tipp"; visible = 4; quest_title = "" } ∷ [];
  mode = hint;
  auto_hide = 9000;
  compact = true;
  prio = 0;
  ttl = 90000;
  expires = 0;
  names_next = false;
}

abbrev quiet_page : Surroundings
quiet_page = record {
  popup_open = false;
  modal_open = false;
  on_game_screen = true;
  settled = true;
  moving = false;
}

Reach-IsSteady_example : IsSteady (next false quiet_page 5000 (enqueue said Talk.fresh))
Reach-IsSteady_example =
    Talk.Reach-IsSteady (next false quiet_page 5000 (enqueue said Talk.fresh))
      (Talk.after (Talk.after Talk.loaded (Talk.says said)) (Talk.pumps false quiet_page 5000))

abbrev view : TileRange
view = record { z = 15; x0 = 3; x1 = 5; y0 = 0; y1 = 2; cx = 1024; cy = 300 }

Reach-IsCounted_example : IsCounted (tile_pump view 20 (relief_tile 15 4 1 true 10 nothing_yet))
Reach-IsCounted_example =
    Reach-IsCounted (tile_pump view 20 (relief_tile 15 4 1 true 10 nothing_yet))
      (Tiling.after (Tiling.after started (draws 15 4 1 true 10)) (settles view 20))

tile_pump-Goes_example :
    Goes (tile_pump view 20 (relief_tile 15 4 1 true 10 nothing_yet))
    × (((relief_tile 15 4 1 true 10 nothing_yet).pause_until ≤ 20)
        ⊎ ((tile_pump view 20 (relief_tile 15 4 1 true 10 nothing_yet)).flights
            ≡ (relief_tile 15 4 1 true 10 nothing_yet).flights))
tile_pump-Goes_example =
    tile_pump-Goes view 20 (relief_tile 15 4 1 true 10 nothing_yet)
      (Reach-IsCounted (relief_tile 15 4 1 true 10 nothing_yet)
        (Tiling.after started (draws 15 4 1 true 10))).bounded

-- A map of 400 tiles of one row.
abbrev below : ℕ → List ℕ
below zero = []
below (suc n) = n ∷ below n

abbrev row_tile : ℕ → Tile
row_tile r = record { z = 15; x = r; y = 0; state = idle; canvas = none; at = r + 1; retry_at = 0 }

abbrev full_map : Tileq
full_map = record nothing_yet { tiles = row_tile; made = 400; listed = below 400 }

count-below : (r n : ℕ) → n ≤ r → count r (below n) ≡ 0
unfolding count
count-below r zero h = refl
count-below r (suc n) h = ground (arith, h, count-below r n)

length-below : (n : ℕ) → length (below n) ≡ n
length-below zero = refl
length-below (suc n) = omega (arith, length-below n)

below_used : (n : ℕ) → All (λ r. 0 < (row_tile r).at) (below n)
below_used zero = tt
below_used (suc n) = (omega arith, below_used n)

below_new : (n : ℕ) → find (λ r. is_tile 14 3 7 (row_tile r)) (below n) ≡ none
below_new zero = refl
below_new (suc n) = below_new n

full_map-IsCounted : IsCounted full_map
unfolding count
full_map-IsCounted = record {
  counted = refl;
  bounded = omega arith;
  capped = omega arith;
  waits_once = λ _. refl;
  flies_once = λ _. refl;
  unborn_idle = λ _ _. refl;
  listed_born = λ r h. count-below r 400 h;
}

relief_tile-full_example : count 400 (relief_tile 14 3 7 true 90000 full_map).listed ≡ 0
relief_tile-full_example =
    relief_tile-full 14 3 7 true 90000 full_map full_map-IsCounted (below_new 400)
      (omega (arith, length-below 400)) (below_used 400)
