-- ===== src/Herald/Quests.antt =====
-- What quests, hints and completions say. Texts that the page composes are arguments.
pub mod Laws
use Prim.Native.String.{◌++◌ as append}
use siedler_sterreich.Prelude.{
  ℕ, zero, suc, ◌+◌, String, Bool, true, false, ◌&&◌, ◌||◌, not, List, [], ◌∷◌, ◌++◌, Option, none,
  some, leb, ◌==◌, str_eq, has, add, length, if◌then◌else◌,
}
use siedler_sterreich.Herald.{Herald, Item, Line, Mode, intro, quest, hint, done_beat, brief}
use siedler_sterreich.Herald.Box.{dismiss, play, stop_typing}
use siedler_sterreich.Herald.Queue.{enqueue, quests_changed}

abbrev pub is_active : ℕ → Option ℕ → Bool
is_active id none = false
is_active id (some j) = j == id

-- `brief(id)`: a second tap on the quest on show closes it. `found` is its briefing and action.
unfoldable pub brief_quest : Bool → ℕ → ℕ → Option (List Line × Option ℕ) → Herald → Herald
unfolding dismiss play
brief_quest reduced now id none h = h
brief_quest reduced now id (some (lines, act)) h =
    if is_active id h.active_quest && h.shown
    then dismiss true now h
    else play reduced now lines brief 0 false
        (record (dismiss false now h) { active_quest = some id; action = act })

-- `runAction`, up to the action itself.
unfoldable pub run_action : ℕ → Herald → Herald
unfolding dismiss
run_action now h = elim h.action [ none ↦ h | some a ↦ dismiss true now h ]

abbrev pub quest_lines : Option Line → List Line
quest_lines none = []
quest_lines (some q) = q ∷ []

abbrev pub first_quest : Line → Item
first_quest q = record {
  key = "quest0";
  lines = q ∷ [];
  mode = quest;
  auto_hide = 14000;
  compact = true;
  prio = 0;
  ttl = 120000;
  expires = 0;
  names_next = false;
}

-- The first quest of a fresh player, once.
unfoldable pub offer : Bool → Option Line → Herald → Herald
unfolding has add enqueue
offer fresh_player none h = h
offer fresh_player (some l) h =
    if fresh_player && not (has "quest0" h.seen)
    then enqueue (first_quest l) (record h { seen = add "quest0" h.seen })
    else h

-- `start(mode)`: the intro once, else a fresh player's first quest once. `q` is the line of the top quest.
unfoldable pub start : Bool → ℕ → Bool → List Line → Option Line → Bool → Herald → Herald
unfolding has add play offer
start reduced now is_intro greeting q fresh_player h =
    if is_intro && not (has "intro" h.seen)
    then play reduced now (greeting ++ quest_lines q) intro 0 false
        (record h { seen = add "intro" h.seen })
    else offer fresh_player q h

abbrev pub hint_item : String → Line → Item
hint_item key l = record {
  key = key;
  lines = l ∷ [];
  mode = hint;
  auto_hide = 9000;
  compact = true;
  prio = 0;
  ttl = 90000;
  expires = 0;
  names_next = false;
}

-- `hint(key)`: each at most once. `text` is `H[key]`; `pointless` is the test on `enhanced`.
unfoldable pub give_hint : String → Option Line → Bool → Herald → Herald
unfolding has add enqueue
give_hint key none pointless h = h
give_hint key (some l) pointless h =
    if has key h.seen
    then h
    else if str_eq key "enhanced" && pointless
    then record h { seen = add key h.seen }
    else enqueue (hint_item key l) (record h { seen = add key h.seen })

-- Lines behind `idx` that name a quest as the next one go when it is done.
unfoldable pub drop_named : String → ℕ → List Line → List Line
drop_named title n [] = []
drop_named title (suc n) (l ∷ ls) = l ∷ drop_named title n ls
drop_named title zero (l ∷ ls) =
    let rest = drop_named title zero ls in
    if not (str_eq l.quest_title "") && str_eq l.quest_title title then rest else l ∷ rest

abbrev add_text : String → List String → List String
add_text t s = if str_eq t "" then s else add t s

-- `completed(title)`
unfoldable pub completed : String → Herald → Herald
unfolding drop_named add
completed title h = record h {
  done = add_text title h.done;
  lines = drop_named title (h.idx + 1) h.lines;
  burst = add_text title h.burst;
  burst_timer = some 1500;
}

unfoldable pub join : List String → String
join [] = ""
join (t ∷ []) = t
join (t ∷ ts) = append t (append "|" (join ts))

abbrev pub completion : List String → Line → Item
completion titles l = record {
  key = append "done:" (join titles);
  lines = l ∷ [];
  mode = done_beat;
  auto_hide = 7000;
  compact = true;
  prio = 2;
  ttl = 0;
  expires = 0;
  names_next = true;
}

unfoldable pub announce : (List String → Line) → List String → Herald → Herald
unfolding join enqueue
announce beat [] h = h
announce beat (t ∷ ts) h = enqueue (completion (t ∷ ts) (beat (t ∷ ts))) h

-- The burst's timer fires: the quests that were done within it are one beat; `beat` is its text.
unfoldable pub burst_fires : (List String → Line) → Herald → Herald
unfolding announce
burst_fires beat h = announce beat h.burst (record h { burst_timer = none; burst = [] })

unfoldable pub names_quest : String → List Line → Bool
names_quest title [] = false
names_quest title (l ∷ ls) = str_eq l.quest_title title || names_quest title ls

-- The first visible quest that is not done.
unfoldable pub first_open : List String → List Line → Option Line
unfolding has
first_open finished [] = none
first_open finished (q ∷ qs) = if has q.quest_title finished then first_open finished qs else some q

-- The line of the next quest joins those on show; a box that waits on its last line goes on to it.
unfoldable pub name_next : Line → Herald → Herald
name_next q h =
    let joined : Herald = record h { lines = h.lines ++ q ∷ [] } in
    if h.ready && h.idx + 1 == length h.lines
    then record joined { hide_timer = none; timer = some (if h.compact then 4000 else 1500) }
    else joined

abbrev pub asked : Herald → Herald
asked h = record h { next_timer = none; await_next = false }

unfoldable pub named : Option Line → Herald → Herald
unfolding names_quest name_next
named none h = h
named (some q) h = if not h.shown || names_quest q.quest_title h.lines then h else name_next q h

-- The timer of `questsChanged` fires; `quests` are the lines of the visible quests.
unfoldable pub next_fires : List Line → Herald → Herald
unfolding first_open named
next_fires quests h =
    if h.await_next
    then named (first_open h.done quests) (asked h)
    else record h { next_timer = none }

-- `reset()`
unfoldable pub reset : ℕ → Herald → Herald
unfolding dismiss
reset now h = dismiss false now (record h { seen = []; queue = []; quiet_until = 0 })
