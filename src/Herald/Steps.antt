-- ===== src/Herald/Steps.antt =====
-- All events, in any order: what the page asks of the herald, taps, and timers.
use siedler_sterreich.Prelude.{
  ℕ, String, Bool, true, false, List, [], Option, none, some, ◌≡◌, inl, inr, refl, arith,
}
use siedler_sterreich.Herald.{Herald, Item, Line, Surroundings}
use siedler_sterreich.Herald.Box.{dismiss, typed, advance}
use siedler_sterreich.Herald.Box.Laws.{typed-IsSound, advance-IsSound}
use siedler_sterreich.Herald.Box.Frame.{typed-KeepsQueue, advance-KeepsQueue}
use siedler_sterreich.Herald.Queue.{enqueue, next}
use siedler_sterreich.Herald.Queue.Laws.{IsSteady, enqueue-IsSteady, next-IsSteady}
use siedler_sterreich.Herald.Quests.{
  brief_quest, run_action, start, give_hint, completed, burst_fires, next_fires, reset,
}
use siedler_sterreich.Herald.Quests.Laws.{
  keeps-IsSteady, dismiss-IsSteady, brief_quest-IsSteady, run_action-IsSteady, start-IsSteady,
  give_hint-IsSteady, completed-IsSteady, burst_fires-IsSteady, next_fires-IsSteady, reset-IsSteady,
}

-- The state of a page that has just loaded.
abbrev pub fresh : Herald
fresh = record {
  shown = false;
  ready = false;
  lines = [];
  idx = 0;
  mode = none;
  auto_hide = 0;
  compact = false;
  typing = false;
  timer = none;
  hide_timer = none;
  queue = [];
  quiet_until = 0;
  pump_timer = none;
  seen = [];
  active_quest = none;
  action = none;
  await_next = false;
  next_timer = none;
  done = [];
  burst = [];
  burst_timer = none;
}

-- One event, at the time `now`. A timer that fires while a popup is open is set again, for 3 s.
pub data Event : Herald → Herald → Type 0 where
  says : {h : Herald} (item : Item) → Event h (enqueue item h)
  pumps :
      {h : Herald} (reduced : Bool) (around : Surroundings) (now : ℕ)
      → Event h (next reduced around now h)
  types_out : {h : Herald} → h.typing ≡ true → Event h (typed h)
  goes_on : {h : Herald} (reduced : Bool) (now : ℕ) → Event h (advance reduced now h)
  hides : {h : Herald} (now : ℕ) → Event h (dismiss false now h)
  closes : {h : Herald} (now : ℕ) → Event h (dismiss true now h)
  waits_for_popup : {h : Herald} → h.shown ≡ true → Event h (record h { timer = some 3000 })
  hides_later : {h : Herald} → h.shown ≡ true → Event h (record h { hide_timer = some 3000 })
  briefs :
      {h : Herald} (reduced : Bool) (now id : ℕ) (found : Option (List Line × Option ℕ))
      → Event h (brief_quest reduced now id found h)
  acts : {h : Herald} (now : ℕ) → Event h (run_action now h)
  starts :
      {h : Herald} (reduced : Bool) (now : ℕ) (is_intro : Bool) (greeting : List Line)
      (q : Option Line) (fresh_player : Bool)
      → Event h (start reduced now is_intro greeting q fresh_player h)
  hints :
      {h : Herald} (key : String) (text : Option Line) (pointless : Bool)
      → Event h (give_hint key text pointless h)
  completes : {h : Herald} (title : String) → Event h (completed title h)
  announces : {h : Herald} (beat : List String → Line) → Event h (burst_fires beat h)
  names : {h : Herald} (quests : List Line) → Event h (next_fires quests h)
  resets : {h : Herald} (now : ℕ) → Event h (reset now h)

pub data Reach : Herald → Type 0 where
  loaded : Reach fresh
  after : {g h : Herald} → Reach g → Event g h → Reach h

fresh-IsSteady : IsSteady fresh
fresh-IsSteady = record {
  sound = record {
    box = inr (
      refl,
      record {
        no_lines = refl;
        at_start = refl;
        not_ready = refl;
        not_typing = refl;
        no_timer = refl;
        no_hide_timer = refl;
        no_mode = refl;
      },
    );
    briefing = inl refl;
  };
  pumped = inl refl;
}

-- A timer of a box that is up may be set.
later-IsSteady :
    (h : Herald) (t u : Option ℕ)
    → h.shown ≡ true
    → IsSteady h
    → IsSteady (record h { timer = t; hide_timer = u })
later-IsSteady h t u up s = record {
  sound = record {
    box = elim s.sound.box [ inl b ↦ inl b | inr (down, d) ↦ absurd (ground (arith, up, down)) ];
    briefing = s.sound.briefing;
  };
  pumped = s.pumped;
}

Event-IsSteady : {g h : Herald} → Event g h → IsSteady g → IsSteady h
Event-IsSteady {g} (says item) s = enqueue-IsSteady item g s
Event-IsSteady {g} (pumps reduced around now) s = next-IsSteady reduced around now g s
Event-IsSteady {g} (types_out e) s =
    let k = typed-KeepsQueue g in
    keeps-IsSteady g (typed g) s (typed-IsSound g s.sound) k.queue k.pump_timer
Event-IsSteady {g} (goes_on reduced now) s =
    let k = advance-KeepsQueue reduced now g in
    keeps-IsSteady g (advance reduced now g) s (advance-IsSound reduced now g s.sound) k.queue
      k.pump_timer
Event-IsSteady {g} (hides now) s = dismiss-IsSteady false now g s
Event-IsSteady {g} (closes now) s = dismiss-IsSteady true now g s
Event-IsSteady {g} (waits_for_popup up) s = later-IsSteady g (some 3000) g.hide_timer up s
Event-IsSteady {g} (hides_later up) s = later-IsSteady g g.timer (some 3000) up s
Event-IsSteady {g} (briefs reduced now id found) s = brief_quest-IsSteady reduced now id found g s
Event-IsSteady {g} (acts now) s = run_action-IsSteady now g s
Event-IsSteady {g} (starts reduced now is_intro greeting q fresh_player) s =
    start-IsSteady reduced now is_intro greeting q fresh_player g s
Event-IsSteady {g} (hints key text pointless) s = give_hint-IsSteady key text pointless g s
Event-IsSteady {g} (completes title) s = completed-IsSteady title g s
Event-IsSteady {g} (announces beat) s = burst_fires-IsSteady beat g s
Event-IsSteady {g} (names quests) s = next_fires-IsSteady quests g s
Event-IsSteady {g} (resets now) s = reset-IsSteady now g s

-- In every state that the page can reach, a box that is up is on one of its lines, one that is down has no
-- lines, no mode and no timer, only a briefing has an active quest, and the pump's timer runs while an item waits.
pub Reach-IsSteady : (h : Herald) → Reach h → IsSteady h
Reach-IsSteady _ loaded = fresh-IsSteady
Reach-IsSteady h (after {g} r e) = Event-IsSteady e (Reach-IsSteady g r)
