-- ===== src/Herald/Box.antt =====
-- The box: a line is typed or shown at once, then the next one follows, then the box goes.
pub mod Laws
pub mod Frame
use siedler_sterreich.Prelude.{
  ℕ, zero, suc, ◌+◌, ◌-◌, ◌*◌, min, max, Bool, true, false, ◌&&◌, ◌||◌, not, List, [], ◌∷◌, ◌++◌,
  Option, none, some, ltb, leb, ◌==◌, length, add, if◌then◌else◌,
}
use siedler_sterreich.Herald.{Herald, Line, Mode, intro, quest, hint, done_beat, brief}

unfoldable pub line_at : ℕ → List Line → Option Line
line_at n [] = none
line_at zero (l ∷ ls) = some l
line_at (suc n) (l ∷ ls) = line_at n ls

abbrev is_mode_brief : Option Mode → Bool
is_mode_brief (some brief) = true
is_mode_brief _ = false

abbrev is_mode_intro : Option Mode → Bool
is_mode_intro (some intro) = true
is_mode_intro _ = false

-- `stopTyping`
abbrev pub stop_typing : Herald → Herald
stop_typing h = record h { typing = false; timer = none }

-- `dismiss(user)` at the time `now`.
unfoldable pub dismiss : Bool → ℕ → Herald → Herald
unfolding add
dismiss user now h = record h {
  typing = false;
  timer = none;
  hide_timer = none;
  shown = false;
  ready = false;
  quiet_until = if h.shown then now + (if user then 30000 else 14000) else h.quiet_until;
  seen = if user && is_mode_intro h.mode then add "quest0" h.seen else h.seen;
  active_quest = if is_mode_brief h.mode then none else h.active_quest;
  action = none;
  mode = none;
  await_next = false;
  lines = [];
  idx = 0;
}

-- `dwell`
abbrev pub dwell : Line → ℕ
dwell l = min 9000 (2600 + l.visible * 45)

-- How long the last line stays, by `autoHide` and the mode.
unfoldable pub linger : Line → ℕ → Option Mode → Option ℕ
linger l (suc n) mode = some (max (suc n) (dwell l))
linger l zero (some intro) = some 25000
linger l zero (some quest) = some 25000
linger l zero (some brief) = some 40000
linger l zero _ = none

-- What `showLine` does when its line is complete.
unfoldable pub line_done : Line → Herald → Herald
unfolding linger
line_done l h =
    if ltb (h.idx + 1) (length h.lines)
    then record h { ready = true; timer = some (dwell l) }
    else record h { ready = true; hide_timer = linger l h.auto_hide h.mode }

-- `showLine`; `reduced` is the preference for less motion.
unfoldable pub show_line : Bool → ℕ → Herald → Herald
unfolding line_at dismiss line_done
show_line reduced now h = elim (line_at h.idx h.lines) [
  | none ↦ dismiss false now h
  | some l ↦
      if reduced || h.compact
      then line_done l (record h { ready = false })
      else record h { ready = false; typing = true }
]

-- The last character is typed.
unfoldable pub typed : Herald → Herald
unfolding line_at line_done
typed h = elim (line_at h.idx h.lines) [
  | none ↦ h
  | some l ↦ line_done l (record h { typing = false })
]

-- `advance`: a tap, a key or the timer.
unfoldable pub advance : Bool → ℕ → Herald → Herald
unfolding typed show_line dismiss
advance reduced now h =
    if h.typing
    then typed (stop_typing h)
    else let next : Herald = record h { timer = none; hide_timer = none; idx = h.idx + 1 } in
      if ltb next.idx (length next.lines)
      then show_line reduced now next
      else dismiss false now next

abbrev pub or_number : ℕ → ℕ → ℕ
or_number n d = if n == 0 then d else n

abbrev pub has_lines : List Line → Bool
has_lines [] = false
has_lines (_ ∷ _) = true

-- A box that is opened with new lines.
abbrev pub opened : List Line → Mode → ℕ → Bool → Herald → Herald
opened new mode auto_hide compact h = record h {
  hide_timer = none;
  typing = false;
  timer = none;
  lines = new;
  idx = 0;
  mode = some mode;
  auto_hide = auto_hide;
  compact = compact;
  shown = true;
  ready = false;
}

-- New lines at the end of those of a box that is up; if it waits on its last line, it goes on.
abbrev pub chained : List Line → ℕ → Herald → Herald
chained new auto_hide h =
    let joined : Herald = record h {
      lines = h.lines ++ new;
      auto_hide = or_number auto_hide h.auto_hide;
    } in
    if h.ready && h.idx + 1 == length h.lines
    then record joined { hide_timer = none; timer = some 1800 }
    else joined

-- `play`
unfoldable pub play : Bool → ℕ → List Line → Mode → ℕ → Bool → Herald → Herald
unfolding show_line
play reduced now new mode auto_hide compact h =
    if h.shown && has_lines h.lines
    then chained new auto_hide h
    else show_line reduced now (opened new mode auto_hide compact h)
