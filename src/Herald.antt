-- ===== src/Herald.antt =====
-- srv/static/game.js: `Herald`, the dialogue box and the queue of what it says. `Box` is the box, `Queue`
-- the queue in front of it, `Quests` what quests and hints do with both, and `Steps` all events.
pub mod Box
pub mod Queue
pub mod Quests
pub mod Steps
use siedler_sterreich.Prelude.{ℕ, String, Bool, List, Option}

-- A line of the dialogue: `visible` is its length without tags, `quest_title` the quest that it names as
-- the next one, an empty text if it does not.
pub record Line : Type 0 where
  pub html : String
  pub visible : ℕ
  pub quest_title : String

pub data Mode : Type 0 where
  intro quest hint done_beat brief : Mode

-- An entry of the queue. An empty key and a zero `auto_hide`, `prio`, `ttl` or `expires` are absent;
-- `names_next` is the `onShow` of a completion.
pub record Item : Type 0 where
  pub key : String
  pub lines : List Line
  pub mode : Mode
  pub auto_hide : ℕ
  pub compact : Bool
  pub prio : ℕ
  pub ttl : ℕ
  pub expires : ℕ
  pub names_next : Bool

-- `this`, with the classes `show` and `ready` of its element. A timer is the time that it was set for.
pub record Herald : Type 0 where
  pub shown : Bool
  pub ready : Bool
  pub lines : List Line
  pub idx : ℕ
  pub mode : Option Mode
  pub auto_hide : ℕ
  pub compact : Bool
  pub typing : Bool
  pub timer : Option ℕ
  pub hide_timer : Option ℕ
  pub queue : List Item
  pub quiet_until : ℕ
  pub pump_timer : Option ℕ
  pub seen : List String
  pub active_quest : Option ℕ
  pub action : Option ℕ
  pub await_next : Bool
  pub next_timer : Option ℕ
  pub done : List String
  pub burst : List String
  pub burst_timer : Option ℕ

-- What the rest of the page shows: an open popup or modal, the game's screen, a camera at rest for 1.2 s,
-- and no zoom, drag or river trip.
pub record Surroundings : Type 0 where
  pub popup_open : Bool
  pub modal_open : Bool
  pub on_game_screen : Bool
  pub settled : Bool
  pub moving : Bool
