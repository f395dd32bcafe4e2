-- ===== src/Herald/Quests/Laws.antt =====
-- What quests and hints do keeps the herald steady.
use siedler_sterreich.Prelude.{
  ℕ, zero, suc, ◌+◌, ◌<◌, String, Bool, true, false, ◌&&◌, ◌||◌, not, List, [], ◌∷◌, ◌++◌, Option,
  none, some, is_some, ◌≡◌, inl, inr, refl, ap, arith, ◌==◌, str_eq, has, add, length,
  length-append, if_split, option_split,
}
use siedler_sterreich.Herald.{Herald, Line, Mode, brief, intro}
use siedler_sterreich.Herald.Box.{dismiss, play, opened, show_line, has_lines}
use siedler_sterreich.Herald.Box.Laws.{IsSound, dismiss-IsSound, play-IsSound, show_line-IsSound}
use siedler_sterreich.Herald.Box.Frame.{play-KeepsQueue, dismiss-KeepsQueue, show_line-KeepsQueue}
use siedler_sterreich.Herald.Queue.Laws.{IsSteady, enqueue-IsSteady}
use siedler_sterreich.Herald.Quests.{
  brief_quest, is_active, run_action, start, offer, first_quest, quest_lines, give_hint, hint_item,
  drop_named, completed, completion, announce, burst_fires, names_quest, first_open, name_next,
  named, asked, next_fires, reset,
}

-- A step that leaves the queue and its timer alone is steady when the box is sound after it.
pub keeps-IsSteady :
    (g h : Herald)
    → IsSteady g
    → IsSound h
    → h.queue ≡ g.queue
    → h.pump_timer ≡ g.pump_timer
    → IsSteady h
keeps-IsSteady g h s sound q t = record {
  sound = sound;
  pumped = elim s.pumped [ inl e ↦ inl (cc (q, e)) | inr a ↦ inr (cc (ap is_some t, a)) ];
}

pub dismiss-IsSteady :
    (user : Bool) (now : ℕ) (h : Herald) → IsSteady h → IsSteady (dismiss user now h)
dismiss-IsSteady user now h s =
    let k = dismiss-KeepsQueue user now h in
    keeps-IsSteady h (dismiss user now h) s (dismiss-IsSound user now h s.sound.briefing) k.queue
      k.pump_timer

pub play-IsSteady :
    (reduced : Bool) (now : ℕ) (new : List Line) (mode : Mode) (auto_hide : ℕ) (compact : Bool)
    (h : Herald)
    → IsSteady h
    → IsSteady (play reduced now new mode auto_hide compact h)
play-IsSteady reduced now new mode auto_hide compact h s =
    let k = play-KeepsQueue reduced now new mode auto_hide compact h in
    keeps-IsSteady h (play reduced now new mode auto_hide compact h) s
      (play-IsSound reduced now new mode auto_hide compact h s.sound) k.queue k.pump_timer

dismiss-Hides : (user : Bool) (now : ℕ) (h : Herald) → (dismiss user now h).shown ≡ false
unfolding dismiss
dismiss-Hides user now h = refl

-- A briefing opens a box that is down, and has its quest.
briefing-IsSteady :
    (reduced : Bool) (now : ℕ) (lines : List Line) (h : Herald) (id act : Option ℕ)
    → IsSteady h
    → h.shown ≡ false
    → IsSteady (play reduced now lines brief 0 false (record h { active_quest = id; action = act }))
unfolding play
briefing-IsSteady reduced now lines h id act s down =
    if_split IsSteady (h.shown && has_lines h.lines) (λ up. absurd (ground (arith, up, down)))
      (λ _.
        let g : Herald =
          opened lines brief 0 false (record h { active_quest = id; action = act }) in
        let k = show_line-KeepsQueue reduced now g in
        keeps-IsSteady h (show_line reduced now g) s
          (show_line-IsSound reduced now g refl (inr refl)) k.queue k.pump_timer)

pub brief_quest-IsSteady :
    (reduced : Bool) (now id : ℕ) (found : Option (List Line × Option ℕ)) (h : Herald)
    → IsSteady h
    → IsSteady (brief_quest reduced now id found h)
unfolding brief_quest
brief_quest-IsSteady reduced now id none h s = s
brief_quest-IsSteady reduced now id (some (lines, act)) h s =
    if_split IsSteady (is_active id h.active_quest && h.shown) (λ _. dismiss-IsSteady true now h s)
      (λ _.
        briefing-IsSteady reduced now lines (dismiss false now h) (some id) act
          (dismiss-IsSteady false now h s) (dismiss-Hides false now h))

pub run_action-IsSteady : (now : ℕ) (h : Herald) → IsSteady h → IsSteady (run_action now h)
unfolding run_action
run_action-IsSteady now h s =
    option_split IsSteady h.action s (λ a _. dismiss-IsSteady true now h s)

offer-IsSteady :
    (fresh_player : Bool) (q : Option Line) (h : Herald)
    → IsSteady h
    → IsSteady (offer fresh_player q h)
unfolding offer
offer-IsSteady fresh_player none h s = s
offer-IsSteady fresh_player (some l) h s =
    if_split IsSteady (fresh_player && not (has "quest0" h.seen))
      (λ _.
        enqueue-IsSteady (first_quest l) (record h { seen = add "quest0" h.seen })
          (record { sound = s.sound; pumped = s.pumped }))
      (λ _. s)

pub start-IsSteady :
    (reduced : Bool) (now : ℕ) (is_intro : Bool) (greeting : List Line) (q : Option Line)
    (fresh_player : Bool) (h : Herald)
    → IsSteady h
    → IsSteady (start reduced now is_intro greeting q fresh_player h)
unfolding start
start-IsSteady reduced now is_intro greeting q fresh_player h s =
    if_split IsSteady (is_intro && not (has "intro" h.seen))
      (λ _.
        play-IsSteady reduced now (greeting ++ quest_lines q) intro 0 false
          (record h { seen = add "intro" h.seen }) (record { sound = s.sound; pumped = s.pumped }))
      (λ _. offer-IsSteady fresh_player q h s)

pub give_hint-IsSteady :
    (key : String) (text : Option Line) (pointless : Bool) (h : Herald)
    → IsSteady h
    → IsSteady (give_hint key text pointless h)
unfolding give_hint
give_hint-IsSteady key none pointless h s = s
give_hint-IsSteady key (some l) pointless h s =
    let noted : IsSteady (record h { seen = add key h.seen }) = record {
      sound = s.sound;
      pumped = s.pumped;
    } in
    if_split IsSteady (has key h.seen) (λ _. s)
      (λ _.
        if_split IsSteady (str_eq key "enhanced" && pointless) (λ _. noted)
          (λ _. enqueue-IsSteady (hint_item key l) (record h { seen = add key h.seen }) noted))

-- A line at or before the one on show stays.
length-drop_named :
    (title : String) (n i : ℕ) (ls : List Line)
    → i < n
    → i < length ls
    → i < length (drop_named title n ls)
unfolding drop_named
length-drop_named title n i [] lt range = omega (arith, range)
length-drop_named title zero i (l ∷ ls) lt range = absurd (omega (arith, lt))
length-drop_named title (suc n) zero (l ∷ ls) lt range = omega arith
length-drop_named title (suc n) (suc i) (l ∷ ls) lt range =
    omega
      (arith, lt, range, length-drop_named title n i ls (omega (arith, lt)) (omega (arith, range)))

pub completed-IsSteady : (title : String) (h : Herald) → IsSteady h → IsSteady (completed title h)
unfolding completed
completed-IsSteady title h s = record {
  sound = record {
    box = elim s.sound.box [
      | inl up ↦ inl (up.0, length-drop_named title (h.idx + 1) h.idx h.lines (omega arith) up.1)
      | inr (down, d) ↦ inr (
        down,
        record {
          no_lines = ap (drop_named title (h.idx + 1)) d.no_lines;
          at_start = d.at_start;
          not_ready = d.not_ready;
          not_typing = d.not_typing;
          no_timer = d.no_timer;
          no_hide_timer = d.no_hide_timer;
          no_mode = d.no_mode;
        },
      )
    ];
    briefing = s.sound.briefing;
  };
  pumped = s.pumped;
}

announce-IsSteady :
    (beat : List String → Line) (titles : List String) (h : Herald)
    → IsSteady h
    → IsSteady (announce beat titles h)
unfolding announce
announce-IsSteady beat [] h s = s
announce-IsSteady beat (t ∷ ts) h s = enqueue-IsSteady (completion (t ∷ ts) (beat (t ∷ ts))) h s

pub burst_fires-IsSteady :
    (beat : List String → Line) (h : Herald) → IsSteady h → IsSteady (burst_fires beat h)
unfolding burst_fires
burst_fires-IsSteady beat h s =
    announce-IsSteady beat h.burst (record h { burst_timer = none; burst = [] })
      (record { sound = s.sound; pumped = s.pumped })

-- A line more, while the box is up.
name_next-IsSteady :
    (q : Line) (h : Herald) → h.shown ≡ true → IsSteady h → IsSteady (name_next q h)
unfolding name_next
name_next-IsSteady q h up s =
    let range : h.idx < length (h.lines ++ q ∷ []) =
      ground (arith, s.sound.box, up, length-append h.lines (q ∷ [])) in
    if_split IsSteady (h.ready && h.idx + 1 == length h.lines)
      (λ _. record {
        sound = record { box = inl (up, range); briefing = s.sound.briefing };
        pumped = s.pumped;
      })
      (λ _. record {
        sound = record { box = inl (up, range); briefing = s.sound.briefing };
        pumped = s.pumped;
      })

named-IsSteady : (q : Option Line) (h : Herald) → IsSteady h → IsSteady (named q h)
unfolding named
named-IsSteady none h s = s
named-IsSteady (some q) h s =
    if_split IsSteady (not h.shown || names_quest q.quest_title h.lines) (λ _. s)
      (λ e. name_next-IsSteady q h (ground (arith, e)) s)

pub next_fires-IsSteady :
    (quests : List Line) (h : Herald) → IsSteady h → IsSteady (next_fires quests h)
unfolding next_fires
next_fires-IsSteady quests h s =
    if_split IsSteady h.await_next
      (λ _.
        named-IsSteady (first_open h.done quests) (asked h)
          (record { sound = s.sound; pumped = s.pumped }))
      (λ _. record { sound = s.sound; pumped = s.pumped })

pub reset-IsSteady : (now : ℕ) (h : Herald) → IsSteady h → IsSteady (reset now h)
unfolding reset
reset-IsSteady now h s =
    dismiss-IsSteady false now (record h { seen = []; queue = []; quiet_until = 0 })
      (record { sound = s.sound; pumped = inl refl })
