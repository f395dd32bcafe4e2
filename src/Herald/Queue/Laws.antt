-- ===== src/Herald/Queue/Laws.antt =====
-- No item waits without a timer, and the box stays sound while the queue is worked off.
use siedler_sterreich.Prelude.{
  ℕ, Bool, true, not, ◌&&◌, List, [], ◌∷◌, ◌++◌, none, is_some, ◌≡◌, ◌⊎◌, inl, inr, refl, leb,
  str_eq, if_split,
}
use siedler_sterreich.Herald.{Herald, Item, Surroundings}
use siedler_sterreich.Herald.Box.Laws.{IsSound, play-IsSound}
use siedler_sterreich.Herald.Box.Frame.{KeepsQueue, play-KeepsQueue}
use siedler_sterreich.Herald.Queue.{
  calm, pump, has_item, enqueue, start_life, drop_dead, sort_by_prio, show_item, pump_rest,
  play_first, next,
}

-- The box is sound, and the pump's timer runs while an item waits.
pub record IsSteady (h : Herald) : Type 0 where
  pub sound : IsSound h
  pub pumped : (h.queue ≡ []) ⊎ (is_some h.pump_timer ≡ true)

pump-IsSteady :
    (ms : ℕ) (q : List Item) (h : Herald) → IsSound h → IsSteady (pump ms (record h { queue = q }))
pump-IsSteady ms q h s =
    if_split IsSteady (is_some h.pump_timer) (λ armed. record { sound = s; pumped = inr armed })
      (λ _. record { sound = s; pumped = inr refl })

pub enqueue-IsSteady : (item : Item) (h : Herald) → IsSteady h → IsSteady (enqueue item h)
unfolding enqueue
enqueue-IsSteady item h s =
    if_split IsSteady (not (str_eq item.key "") && has_item item.key h.queue) (λ _. s)
      (λ _. pump-IsSteady 400 (h.queue ++ item ∷ []) h s.sound)

-- An item that is shown leaves the box sound, and the queue as it is.
record Shows (g h : Herald) : Type 0 where
  sound : IsSound h
  kept : KeepsQueue g h

show_item-Shows :
    (reduced : Bool) (now : ℕ) (i : Item) (h : Herald)
    → IsSound h
    → Shows h (show_item reduced now i h)
unfolding show_item
show_item-Shows reduced now i h s =
    let sound = play-IsSound reduced now i.lines i.mode i.auto_hide i.compact h s in
    let kept = play-KeepsQueue reduced now i.lines i.mode i.auto_hide i.compact h in
    if_split (Shows h) i.names_next
      (λ _. record {
        sound = sound;
        kept = record { queue = kept.queue; pump_timer = kept.pump_timer };
      })
      (λ _. record { sound = sound; kept = kept })

pump_rest-IsSteady :
    (rest : List Item) (h : Herald) → IsSound h → h.queue ≡ rest → IsSteady (pump_rest rest h)
pump_rest-IsSteady [] h s e = record { sound = s; pumped = inl e }
pump_rest-IsSteady (i ∷ rest) h s e = pump-IsSteady 1000 h.queue h s

play_first-IsSteady :
    (reduced : Bool) (around : Surroundings) (now : ℕ) (items : List Item) (h : Herald)
    → IsSound h
    → IsSteady (play_first reduced around now items h)
unfolding play_first
play_first-IsSteady reduced around now [] h s = record { sound = s; pumped = inl refl }
play_first-IsSteady reduced around now (q ∷ rest) h s =
    if_split IsSteady (calm around now q h)
      (λ _.
        let shows = show_item-Shows reduced now q (record h { queue = rest }) s in
        pump_rest-IsSteady rest (show_item reduced now q (record h { queue = rest })) shows.sound
          shows.kept.queue)
      (λ _. pump-IsSteady 500 (q ∷ rest) h s)

pub next-IsSteady :
    (reduced : Bool) (around : Surroundings) (now : ℕ) (h : Herald)
    → IsSteady h
    → IsSteady (next reduced around now h)
unfolding next
next-IsSteady reduced around now h s =
    play_first-IsSteady reduced around now
      (sort_by_prio (drop_dead now (start_life (not h.shown && leb h.quiet_until now) now h.queue)))
      (record h { pump_timer = none }) s.sound
