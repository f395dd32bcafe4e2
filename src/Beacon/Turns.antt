-- ===== src/Beacon/Turns.antt =====
-- What one frame of `BEACON` does to the beacon on show, and why. `Paced` follows the frames of a whole run.
use siedler_sterreich.Prelude.{
  ℕ, ◌+◌, ◌-◌, ◌≤◌, ◌<◌, String, true, false, ◌&&◌, List, [], ◌∷◌, Option, none, some, ◌≡◌, ◌⊎◌,
  inl, inr, refl, ◌∙◌, sym, arith, leb, ltb, eq_iff, length, has, if_split, option_split_both,
  subst,
}
use siedler_sterreich.Beacon.{
  Beacon, show, beacon_gap, is, any_other, first_other, first_of, next_beacon, drop_silent,
  hand_over, bring_next,
}

-- What a frame does to the beacon on show, and why.
pub data Turns (now : ℕ) (b c : Beacon) : Type 0 where
  rests : b.cur ≡ none → c ≡ b → (now < b.gap_until) ⊎ (length b.asked ≡ 0) → Turns now b c
  stays : (a : String) → b.cur ≡ some a → c ≡ b → Turns now b c
  silent :
      (a : String)
      → b.cur ≡ some a
      → has a b.asked ≡ false
      → c ≡ record b { last = some a; cur = none; gap_until = now + 1500 }
      → Turns now b c
  yields :
      (a : String) (gap : ℕ)
      → b.cur ≡ some a
      → has a b.asked ≡ true
      → b.since + 12000 < now
      → any_other a b.asked ≡ true
      → 9000 ≤ gap
      → gap ≤ 25000
      → c ≡ record b { last = some a; cur = none; rounds = b.rounds + 1; gap_until = now + gap }
      → Turns now b c
  comes :
      (a : String)
      → b.cur ≡ none
      → b.gap_until ≤ now
      → has a b.asked ≡ true
      → (is a b.last ≡ false) ⊎ (first_other b.last b.asked ≡ none)
      → c ≡ record b { cur = some a; since = now }
      → Turns now b c

first_other-asked :
    (last : Option String) (asked : List String) (a : String)
    → first_other last asked ≡ some a
    → (has a asked ≡ true) × (is a last ≡ false)
unfolding first_other has
first_other-asked last [] a e = absurd (cc e)
first_other-asked last (x ∷ s) a e = ground (arith, e, first_other-asked last s a, eq_iff x a)

first_of-asked : (asked : List String) (a : String) → first_of asked ≡ some a → has a asked ≡ true
unfolding first_of has
first_of-asked [] a e = absurd (cc e)
first_of-asked (x ∷ s) a e = ground (arith, e, eq_iff x a)

next_beacon-asked :
    (last : Option String) (asked : List String) (a : String)
    → next_beacon last asked ≡ some a
    → (has a asked ≡ true) × ((is a last ≡ false) ⊎ (first_other last asked ≡ none))
unfolding next_beacon
next_beacon-asked last asked a =
    option_split_both {B = Option String} (λ o. o ≡ some a → Asked) (first_other last asked)
      (λ alone e. (first_of-asked asked a e, inr alone))
      (λ x found e.
        let other = first_other-asked last asked a (found ∙ e) in (other.0, inl other.1))
  where
    Asked : Type 0
    Asked = (has a asked ≡ true) × ((is a last ≡ false) ⊎ (first_other last asked ≡ none))

next_beacon-none :
    (last : Option String) (asked : List String) → next_beacon last asked ≡ none → length asked ≡ 0
unfolding next_beacon first_of first_other
next_beacon-none last [] e = refl
next_beacon-none last (x ∷ s) e = ground (arith, e)

bring_next-Turns : (now : ℕ) (b : Beacon) → b.cur ≡ none → Turns now b (bring_next now b)
unfolding bring_next
bring_next-Turns now b idle =
    option_split_both {B = Beacon} (Turns now b) b.cur
      (λ _.
        if_split (Turns now b) (leb b.gap_until now)
          (λ over.
            option_split_both {B = Beacon} (Turns now b) (next_beacon b.last b.asked)
              (λ nobody. rests idle refl (inr (next_beacon-none b.last b.asked nobody)))
              (λ a found.
                let asked = next_beacon-asked b.last b.asked a found in
                comes a idle (ground (arith, over)) asked.0 asked.1 refl))
          (λ gap. rests idle refl (inl (ground (arith, gap)))))
      (λ a shown. absurd (cc (idle, shown)))

bring_next-waits : (now : ℕ) (b : Beacon) → now < b.gap_until → bring_next now b ≡ b
unfolding bring_next
bring_next-waits now b gap =
    option_split_both {B = Beacon} (λ c. c ≡ b) b.cur
      (λ _.
        if_split {A = Beacon} (λ c. c ≡ b) (leb b.gap_until now)
          (λ over. absurd (ground (arith, over, gap))) (λ _. refl))
      (λ a _. refl)

bring_next-shown : (now : ℕ) (b : Beacon) (a : String) → b.cur ≡ some a → bring_next now b ≡ b
unfolding bring_next
bring_next-shown now b a shown =
    option_split_both {B = Beacon} (λ c. c ≡ b) b.cur (λ idle. absurd (cc (idle, shown)))
      (λ _ _. refl)

hand_over-idle : (now : ℕ) (b : Beacon) → b.cur ≡ none → hand_over now b ≡ b
unfolding hand_over
hand_over-idle now b idle =
    option_split_both {B = Beacon} (λ c. c ≡ b) b.cur (λ _. refl)
      (λ a shown. absurd (cc (idle, shown)))

hand_over-Turns :
    (now : ℕ) (b : Beacon)
    → (b.cur ≡ none) ⊎ ((a : String) × (b.cur ≡ some a) × (has a b.asked ≡ true))
    → Turns now b (bring_next now (hand_over now b))
unfolding hand_over
hand_over-Turns now b (inl idle) = rw (hand_over-idle now b idle) (bring_next-Turns now b idle)
hand_over-Turns now b (inr (a0, shown0, asked0)) =
    option_split_both {B = Beacon} (λ c. Turns now b (bring_next now c)) b.cur
      (λ idle. absurd (cc (idle, shown0)))
      (λ a shown.
        if_split {A = Beacon} (λ c. Turns now b (bring_next now c))
          (ltb show (now - b.since) && any_other a b.asked)
          (λ e.
            let gap = beacon_gap (b.rounds + 1) in
            let c : Beacon = record b {
              last = some a;
              cur = none;
              rounds = b.rounds + 1;
              gap_until = now + gap;
            } in
            subst (Turns now b) (sym (bring_next-waits now c (omega arith))) (
              yields a gap shown (ground (arith, shown, shown0, asked0)) (ground (arith, e))
                (ground (arith, e)) (omega arith) (omega arith) refl))
          (λ _. subst (Turns now b) (sym (bring_next-shown now b a shown)) (stays a shown refl)))

-- A frame, but for what it clears at its end.
pub frame-Turns :
    (now : ℕ) (b : Beacon) → Turns now b (bring_next now (hand_over now (drop_silent now b)))
unfolding drop_silent
frame-Turns now b =
    option_split_both {B = Beacon} (λ c. Turns now b (bring_next now (hand_over now c))) b.cur
      (λ idle. hand_over-Turns now b (inl idle))
      (λ a shown.
        if_split {A = Beacon} (λ c. Turns now b (bring_next now (hand_over now c))) (has a b.asked)
          (λ asked. hand_over-Turns now b (inr (a, shown, asked)))
          (λ quiet.
            let c : Beacon = record b { last = some a; cur = none; gap_until = now + 1500 } in
            subst (λ d. Turns now b (bring_next now d)) (sym (hand_over-idle now c refl))
              (subst (Turns now b) (sym (bring_next-waits now c (omega arith)))
                (silent a shown quiet refl))))
