-- ===== src/Herald/Box/Laws.antt =====
-- The box never points past its lines, and holds nothing when it is down.
use siedler_sterreich.Prelude.{
  ℕ, zero, suc, ◌+◌, ◌<◌, Bool, true, false, ◌&&◌, ◌||◌, List, [], ◌∷◌, ◌++◌, Option, none, some,
  ◌≡◌, ◌⊎◌, inl, inr, refl, ap, arith, length, length-append, ltb, ◌==◌, if_split, option_split,
}
use siedler_sterreich.Herald.{Herald, Line, Mode, brief}
use siedler_sterreich.Herald.Box.{
  line_at, dismiss, line_done, show_line, typed, advance, play, stop_typing, has_lines, opened,
}

-- Nothing is left of what was said.
pub record Down (ready typing : Bool) (lines : List Line) (idx : ℕ) (mode : Option Mode)
    (timer hide_timer : Option ℕ) : Type 0 where
  pub no_lines : lines ≡ []
  pub at_start : idx ≡ 0
  pub not_ready : ready ≡ false
  pub not_typing : typing ≡ false
  pub no_timer : timer ≡ none
  pub no_hide_timer : hide_timer ≡ none
  pub no_mode : mode ≡ none

abbrev pub IsDown : Herald → Type 0
IsDown h = Down h.ready h.typing h.lines h.idx h.mode h.timer h.hide_timer

-- The line shown is one of the lines, a box that is down is empty, and only a briefing has a quest.
pub record Sound (shown : Bool) (lines : List Line) (idx : ℕ) (mode : Option Mode)
    (active : Option ℕ) (down : Type 0) : Type 0 where
  pub box : ((shown ≡ true) × (idx < length lines)) ⊎ ((shown ≡ false) × down)
  pub briefing : (active ≡ none) ⊎ (mode ≡ some brief)

abbrev pub IsSound : Herald → Type 0
IsSound h = Sound h.shown h.lines h.idx h.mode h.active_quest (IsDown h)

line_at-lt : (n : ℕ) (ls : List Line) (l : Line) → line_at n ls ≡ some l → n < length ls
unfolding line_at
line_at-lt n [] l h = cc
line_at-lt zero (x ∷ ls) l h = omega arith
line_at-lt (suc n) (x ∷ ls) l h = omega (arith, line_at-lt n ls l h)

Down-refl : Down false false [] 0 none none none
Down-refl = record {
  no_lines = refl;
  at_start = refl;
  not_ready = refl;
  not_typing = refl;
  no_timer = refl;
  no_hide_timer = refl;
  no_mode = refl;
}

pub dismiss-IsSound :
    (user : Bool) (now : ℕ) (h : Herald)
    → (h.active_quest ≡ none) ⊎ (h.mode ≡ some brief)
    → IsSound (dismiss user now h)
unfolding dismiss
dismiss-IsSound user now h b = record { box = inr (refl, Down-refl); briefing = ground (arith, b) }

-- A box that is up, from the place of its line on.
line_done-IsSound :
    (l : Line) (h : Herald)
    → h.shown ≡ true
    → h.idx < length h.lines
    → (h.active_quest ≡ none) ⊎ (h.mode ≡ some brief)
    → IsSound (line_done l h)
unfolding line_done
line_done-IsSound l h up range b = record {
  box = ground (arith, up, range);
  briefing = ground (arith, b);
}

pub show_line-IsSound :
    (reduced : Bool) (now : ℕ) (h : Herald)
    → h.shown ≡ true
    → (h.active_quest ≡ none) ⊎ (h.mode ≡ some brief)
    → IsSound (show_line reduced now h)
unfolding show_line
show_line-IsSound reduced now h up b =
    option_split IsSound (line_at h.idx h.lines) (dismiss-IsSound false now h b) (λ l e.
      if_split IsSound (reduced || h.compact)
        (λ _. line_done-IsSound l (record h { ready = false }) up (line_at-lt h.idx h.lines l e) b)
        (λ _. record { box = inl (up, line_at-lt h.idx h.lines l e); briefing = b }))

up_of : (h : Herald) → IsSound h → h.idx < length h.lines → h.shown ≡ true
up_of h s range = elim s.box [
  | inl up ↦ up.0
  | inr down ↦ absurd (omega (arith, range, ap length down.1.no_lines))
]

stop_typing-IsSound : (h : Herald) → IsSound h → IsSound (stop_typing h)
stop_typing-IsSound h s = record {
  box = elim s.box [
    | inl up ↦ inl up
    | inr (down, d) ↦ inr (
      down,
      record {
        no_lines = d.no_lines;
        at_start = d.at_start;
        not_ready = d.not_ready;
        not_typing = refl;
        no_timer = refl;
        no_hide_timer = d.no_hide_timer;
        no_mode = d.no_mode;
      },
    )
  ];
  briefing = s.briefing;
}

pub typed-IsSound : (h : Herald) → IsSound h → IsSound (typed h)
unfolding typed
typed-IsSound h s = option_split IsSound (line_at h.idx h.lines) s (λ l e.
    let range = line_at-lt h.idx h.lines l e in
    line_done-IsSound l (record h { typing = false }) (up_of h s range) range s.briefing)

pub advance-IsSound :
    (reduced : Bool) (now : ℕ) (h : Herald) → IsSound h → IsSound (advance reduced now h)
unfolding advance
advance-IsSound reduced now h s =
    if_split IsSound h.typing (λ _. typed-IsSound (stop_typing h) (stop_typing-IsSound h s))
      (λ _.
        if_split IsSound (ltb (h.idx + 1) (length h.lines))
          (λ more. show_line-IsSound reduced now next (up_of h s (ground (arith, more))) s.briefing)
          (λ _. last))
  where
    next : Herald
    next = record h { timer = none; hide_timer = none; idx = h.idx + 1 }

    last : IsSound (dismiss false now next)
    last = dismiss-IsSound false now next s.briefing

has_lines-length : (ls : List Line) → has_lines ls ≡ false → length ls ≡ 0
has_lines-length [] h = refl
has_lines-length (l ∷ ls) h = cc

pub play-IsSound :
    (reduced : Bool) (now : ℕ) (new : List Line) (mode : Mode) (auto_hide : ℕ) (compact : Bool)
    (h : Herald)
    → IsSound h
    → IsSound (play reduced now new mode auto_hide compact h)
unfolding play
play-IsSound reduced now new mode auto_hide compact h s =
    if_split IsSound (h.shown && has_lines h.lines)
      (λ up.
        let shown : h.shown ≡ true = ground (arith, up) in
        let range : h.idx < length (h.lines ++ new) =
          ground (arith, s.box, shown, length-append h.lines new) in
        if_split IsSound (h.ready && h.idx + 1 == length h.lines)
          (λ _. record { box = inl (shown, range); briefing = s.briefing })
          (λ _. record { box = inl (shown, range); briefing = s.briefing }))
      (λ fresh.
        show_line-IsSound reduced now (opened new mode auto_hide compact h) refl (inl (idle fresh)))
  where
    idle : h.shown && has_lines h.lines ≡ false → h.active_quest ≡ none
    idle fresh = elim s.box [
      | inl up ↦ absurd (ground (arith, up, fresh, has_lines-length h.lines))
      | inr down ↦ elim s.briefing [
        | inl a ↦ a
        | inr m ↦ absurd (ground (arith, m, down.1.no_mode))
      ]
    ]
