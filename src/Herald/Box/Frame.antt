-- ===== src/Herald/Box/Frame.antt =====
-- What the box leaves alone: the queue and its timer.
use siedler_sterreich.Prelude.{
  ℕ, ◌+◌, Bool, false, ◌&&◌, ◌||◌, List, none, ◌≡◌, refl, arith, length, ltb, ◌==◌, if_split,
  option_split,
}
use siedler_sterreich.Herald.{Herald, Line, Mode}
use siedler_sterreich.Herald.Box.{
  line_at, dismiss, line_done, show_line, typed, advance, play, stop_typing, has_lines, opened,
}

-- The parts that the box leaves alone.
pub record KeepsQueue (g h : Herald) : Type 0 where
  pub queue : h.queue ≡ g.queue
  pub pump_timer : h.pump_timer ≡ g.pump_timer

pub dismiss-KeepsQueue : (user : Bool) (now : ℕ) (h : Herald) → KeepsQueue h (dismiss user now h)
unfolding dismiss
dismiss-KeepsQueue user now h = record { queue = refl; pump_timer = refl }

line_done-KeepsQueue : (l : Line) (h : Herald) → KeepsQueue h (line_done l h)
unfolding line_done
line_done-KeepsQueue l h = record { queue = ground arith; pump_timer = ground arith }

pub show_line-KeepsQueue :
    (reduced : Bool) (now : ℕ) (h : Herald) → KeepsQueue h (show_line reduced now h)
unfolding show_line
show_line-KeepsQueue reduced now h =
    option_split (KeepsQueue h) (line_at h.idx h.lines)
      (record {
        queue = (dismiss-KeepsQueue false now h).queue;
        pump_timer = (dismiss-KeepsQueue false now h).pump_timer;
      })
      (λ l _.
        if_split (KeepsQueue h) (reduced || h.compact)
          (λ _.
            let k = line_done-KeepsQueue l (record h { ready = false }) in
            record { queue = k.queue; pump_timer = k.pump_timer })
          (λ _. record { queue = refl; pump_timer = refl }))

pub typed-KeepsQueue : (h : Herald) → KeepsQueue h (typed h)
unfolding typed
typed-KeepsQueue h =
    option_split (KeepsQueue h) (line_at h.idx h.lines) (record { queue = refl; pump_timer = refl })
      (λ l _.
        let k = line_done-KeepsQueue l (record h { typing = false }) in
        record { queue = k.queue; pump_timer = k.pump_timer })

pub advance-KeepsQueue :
    (reduced : Bool) (now : ℕ) (h : Herald) → KeepsQueue h (advance reduced now h)
unfolding advance
advance-KeepsQueue reduced now h =
    let next : Herald = record h { timer = none; hide_timer = none; idx = h.idx + 1 } in
    if_split (KeepsQueue h) h.typing
      (λ _.
        let k = typed-KeepsQueue (stop_typing h) in
        record { queue = k.queue; pump_timer = k.pump_timer })
      (λ _.
        if_split (KeepsQueue h) (ltb (h.idx + 1) (length h.lines))
          (λ _.
            let k = show_line-KeepsQueue reduced now next in
            record { queue = k.queue; pump_timer = k.pump_timer })
          (λ _.
            let k = dismiss-KeepsQueue false now next in
            record { queue = k.queue; pump_timer = k.pump_timer }))

pub play-KeepsQueue :
    (reduced : Bool) (now : ℕ) (new : List Line) (mode : Mode) (auto_hide : ℕ) (compact : Bool)
    (h : Herald)
    → KeepsQueue h (play reduced now new mode auto_hide compact h)
unfolding play
play-KeepsQueue reduced now new mode auto_hide compact h =
    if_split (KeepsQueue h) (h.shown && has_lines h.lines)
      (λ _.
        if_split (KeepsQueue h) (h.ready && h.idx + 1 == length h.lines)
          (λ _. record { queue = refl; pump_timer = refl })
          (λ _. record { queue = refl; pump_timer = refl }))
      (λ _.
        let k = show_line-KeepsQueue reduced now (opened new mode auto_hide compact h) in
        record { queue = k.queue; pump_timer = k.pump_timer })
