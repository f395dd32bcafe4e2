-- ===== src/Beacon/Paced.antt =====
-- The beacons of a whole run: who comes, who goes, when and why.
use siedler_sterreich.Prelude.{
  ℕ, ◌+◌, ◌≤◌, ◌<◌, String, Bool, true, false, not, ◌&&◌, ◌||◌, List, [], ◌∷◌, ◌++◌, Option, none,
  some, is_some, ◌≡◌, ◌⊎◌, inl, inr, refl, sym, arith, ltb, leb, ◌==◌, eq_iff, str_eq, str_eq_refl,
  length, has, add, if◌then◌else◌, subst,
}
use siedler_sterreich.Beacon.{
  Beacon, is, any_other, first_other, bring_next, hand_over, drop_silent, beacon_frame_begin,
  beacon_turn,
}
use siedler_sterreich.Beacon.Turns.{Turns, rests, stays, silent, yields, comes, frame-Turns}

-- A beacon came or went in a frame: which, when, and who had asked.
pub data Turn : Type 0 where
  came went : String → ℕ → List String → Turn

-- What a frame changes of the beacon on show, the latest first.
unfoldable pub changes : ℕ → List String → Option String → Option String → List Turn
changes now asked none none = []
changes now asked none (some a) = came a now asked ∷ []
changes now asked (some a) none = went a now asked ∷ []
changes now asked (some a) (some c) =
    if str_eq a c then [] else came c now asked ∷ went a now asked ∷ []

-- As the page opens.
abbrev pub at_rest : Beacon
at_rest = record {
  cur = none;
  since = 0;
  last = none;
  gap_until = 0;
  asked = [];
  n = 0;
  rounds = 0;
}

-- A run of frames, at any times, with beacons that ask between them, and the turns in it, the latest first.
pub data Reach : Beacon → List Turn → Type 0 where
  opened : Reach at_rest []
  asks :
      (id : String) (moved now : ℕ) (b : Beacon) (log : List Turn)
      → Reach b log
      → Reach (beacon_turn id moved now b).0 log
  frame :
      (now : ℕ) (b : Beacon) (log : List Turn)
      → Reach b log
      → Reach
          (beacon_frame_begin now b)
          (changes now b.asked b.cur (beacon_frame_begin now b).cur ++ log)

-- One comes first of all; or 1.5 s after another has gone, 9 s if that one still asked; and it is not the same one
-- again unless no other one asks.
pub may_come : String → ℕ → List String → List Turn → Bool
may_come a t asked [] = true
may_come a t asked (came b s heard ∷ log) = false
may_come a t asked (went b s heard ∷ log) =
    leb (s + (if has b heard then 9000 else 1500)) t
    && (not (str_eq b a) || not (any_other b asked))

-- The one that came goes: it asks no more, or it has been there for more than 12 s and another one asks.
pub may_go : String → ℕ → List String → List Turn → Bool
may_go a t asked [] = false
may_go a t asked (went b s heard ∷ log) = false
may_go a t asked (came b s heard ∷ log) =
    str_eq b a && (not (has a asked) || ltb (s + 12000) t && any_other a asked)

pub is_paced : List Turn → Bool
unfolding may_come may_go
is_paced [] = true
is_paced (came a t asked ∷ log) = has a asked && may_come a t asked log && is_paced log
is_paced (went a t asked ∷ log) = may_go a t asked log && is_paced log

-- Some beacon has gone, and not 25 s ago.
pub is_quiet : ℕ → List Turn → Bool
is_quiet now [] = false
is_quiet now (came a t asked ∷ log) = false
is_quiet now (went a t asked ∷ log) = ltb now (t + 25000)

-- The state of the arbiter is the one that the latest turn has left.
pub Left : Beacon → List Turn → Type 0
Left b [] = (b.cur ≡ none) × (b.last ≡ none) × (b.gap_until ≡ 0)
Left b (came a t asked ∷ log) = (b.cur ≡ some a) × (b.since ≡ t)
Left b (went a t asked ∷ log) =
    (b.cur ≡ none)
    × (b.last ≡ some a)
    × (t + (if has a asked then 9000 else 1500) ≤ b.gap_until)
    × (b.gap_until ≤ t + 25000)

Left-cleared :
    (b : Beacon) (n : ℕ) (asked : List String) (log : List Turn)
    → Left b log
    → Left (record b { n = n; asked = asked }) log
unfolding Left
Left-cleared b n asked [] l = l
Left-cleared b n asked (came a t h ∷ log) l = l
Left-cleared b n asked (went a t h ∷ log) l = l

waits-is_quiet :
    (now : ℕ) (b : Beacon) (log : List Turn)
    → Left b log
    → b.cur ≡ none
    → (now < b.gap_until) ⊎ (length b.asked ≡ 0)
    → (length b.asked == 0 || is_quiet now log) ≡ true
unfolding Left is_quiet
waits-is_quiet now b [] l idle why = ground (arith, l, why)
waits-is_quiet now b (came a t h ∷ log) l idle why = absurd (cc (l.0, idle))
waits-is_quiet now b (went a t h ∷ log) l idle why = ground (arith, l, why)

leaves-may_go :
    (now : ℕ) (b : Beacon) (a : String) (log : List Turn)
    → Left b log
    → b.cur ≡ some a
    → (not (has a b.asked) || ltb (b.since + 12000) now && any_other a b.asked) ≡ true
    → may_go a now b.asked log ≡ true
unfolding Left may_go
leaves-may_go now b a [] l shown why = absurd (cc (l.0, shown))
leaves-may_go now b a (came x t h ∷ log) l shown why = ground (arith, l, shown, why, eq_iff x a)
leaves-may_go now b a (went x t h ∷ log) l shown why = absurd (cc (l.0, shown))

first_other-none :
    (a : String) (asked : List String)
    → first_other (some a) asked ≡ none
    → any_other a asked ≡ false
unfolding first_other any_other
first_other-none a [] e = refl
first_other-none a (x ∷ s) e = ground (arith, e, first_other-none a s, eq_iff x a, eq_iff a x)

comes-may_come :
    (now : ℕ) (b : Beacon) (a : String) (log : List Turn)
    → Left b log
    → b.cur ≡ none
    → b.gap_until ≤ now
    → (is a b.last ≡ false) ⊎ (first_other b.last b.asked ≡ none)
    → may_come a now b.asked log ≡ true
unfolding Left may_come
comes-may_come now b a [] l idle over turn = refl
comes-may_come now b a (came x t h ∷ log) l idle over turn = absurd (cc (l.0, idle))
comes-may_come now b a (went x t h ∷ log) l idle over (inl other) =
    ground (arith, l, over, subst (λ o. is a o ≡ false) l.1 other)
comes-may_come now b a (went x t h ∷ log) l idle over (inr alone) = ground (
  arith,
  l,
  over,
  first_other-none x b.asked (subst (λ o. first_other o b.asked ≡ none) l.1 alone),
)

-- A beacon is on show, or none has asked, or the gap is running.
abbrev pub is_attended : ℕ → List String → Option String → List Turn → Bool
is_attended now asked cur log = is_some cur || length asked == 0 || is_quiet now log

record Good (now : ℕ) (b : Beacon) (log : List Turn) (c : Beacon) : Type 0 where
  left : Left c (changes now b.asked b.cur c.cur ++ log)
  paced : is_paced (changes now b.asked b.cur c.cur ++ log) ≡ true
  attended : is_attended now b.asked c.cur (changes now b.asked b.cur c.cur ++ log) ≡ true

changes-Good :
    (now : ℕ) (b c : Beacon) (log new : List Turn)
    → changes now b.asked b.cur c.cur ≡ new
    → Left c (new ++ log)
    → is_paced (new ++ log) ≡ true
    → is_attended now b.asked c.cur (new ++ log) ≡ true
    → Good now b log c
changes-Good now b c log new e l p w = record {
  left = subst (λ t. Left c (t ++ log)) (sym e) l;
  paced = subst (λ t. is_paced (t ++ log) ≡ true) (sym e) p;
  attended = subst (λ t. is_attended now b.asked c.cur (t ++ log) ≡ true) (sym e) w;
}

frame-Good :
    (now : ℕ) (b c : Beacon) (log : List Turn)
    → Left b log
    → is_paced log ≡ true
    → Turns now b c
    → Good now b log c
unfolding changes is_paced Left is_quiet
frame-Good now b c log l p (rests idle same why) = subst (Good now b log) (sym same) (
    changes-Good now b b log [] (rw idle refl) l p
      (ground (arith, waits-is_quiet now b log l idle why)))
frame-Good now b c log l p (stays a shown same) =
    subst (Good now b log) (sym same)
      (changes-Good now b b log [] (rw shown (rw (str_eq_refl a) refl)) l p (ground (arith, shown)))
frame-Good now b c log l p (silent a shown quiet same) = subst (Good now b log) (sym same) (
    changes-Good now b (record b { last = some a; cur = none; gap_until = now + 1500 }) log
      (went a now b.asked ∷ []) (rw shown refl) (refl, refl, ground (arith, quiet), omega arith)
      (ground (arith, p, leaves-may_go now b a log l shown (ground (arith, quiet)))) (ground arith))
frame-Good now b c log l p (yields a gap shown asked long other low high same) =
    subst (Good now b log) (sym same) (
      changes-Good now b
        (record b { last = some a; cur = none; rounds = b.rounds + 1; gap_until = now + gap }) log
        (went a now b.asked ∷ []) (rw shown refl)
        (refl, refl, ground (arith, asked, low), omega (arith, high))
        (ground (arith, p, leaves-may_go now b a log l shown (ground (arith, asked, long, other))))
        (ground arith))
frame-Good now b c log l p (comes a idle over asked turn same) = subst (Good now b log) (sym same) (
    changes-Good now b (record b { cur = some a; since = now }) log (came a now b.asked ∷ [])
      (rw idle refl) (refl, refl)
      (ground (arith, p, asked, comes-may_come now b a log l idle over turn)) refl)

begin-Good :
    (now : ℕ) (b : Beacon) (log : List Turn)
    → Left b log
    → is_paced log ≡ true
    → Good now b log (bring_next now (hand_over now (drop_silent now b)))
begin-Good now b log l p =
    frame-Good now b (bring_next now (hand_over now (drop_silent now b))) log l p
      (frame-Turns now b)

Left-asks :
    (id : String) (moved now : ℕ) (b : Beacon) (log : List Turn)
    → Left b log
    → Left (beacon_turn id moved now b).0 log
unfolding beacon_turn
Left-asks id moved now b log l = Left-cleared b b.n (add id b.asked) log l

Reach-Left : (b : Beacon) (log : List Turn) → Reach b log → Left b log × (is_paced log ≡ true)
unfolding beacon_frame_begin Left is_paced
Reach-Left _ _ opened = ((refl, refl, refl), refl)
Reach-Left _ _ (asks id moved now b log r) =
    (Left-asks id moved now b log (Reach-Left b log r).0, (Reach-Left b log r).1)
Reach-Left _ _ (frame now b log r) =
    let s = Reach-Left b log r in
    let g = begin-Good now b log s.0 s.1 in
    let c = bring_next now (hand_over now (drop_silent now b)) in
    (Left-cleared c (length b.asked) [] (changes now b.asked b.cur c.cur ++ log) g.left, g.paced)

-- In a run of frames from the opening of the page, a beacon that comes has asked for it; unless it is the first, another
-- one has gone 1.5 s before or more, 9 s or more if that one still asked; and it is not the same one unless no other one
-- asks. The one on show goes only when it asks no more, or after more than 12 s when another one asks, and none takes
-- its place in that frame. After every frame a beacon is on show, or none has asked, or one has gone less than 25 s ago.
pub Reach-is_paced :
    (now : ℕ) (b : Beacon) (log : List Turn)
    → Reach b log
    → (is_paced (changes now b.asked b.cur (beacon_frame_begin now b).cur ++ log) ≡ true)
      × (is_attended now b.asked
            (beacon_frame_begin now b).cur
            (changes now b.asked b.cur (beacon_frame_begin now b).cur ++ log)
          ≡ true)
unfolding beacon_frame_begin
Reach-is_paced now b log r =
    let s = Reach-Left b log r in let g = begin-Good now b log s.0 s.1 in (g.paced, g.attended)
