-- ===== src/Actions/Answers/Trees.antt =====
-- What a claimed treasure leaves behind: a shorter list, and the giant trees.
use siedler_sterreich.Prelude.{
  ℕ, ◌+◌, String, Bool, true, false, not, ◌&&◌, ◌||◌, List, [], ◌∷◌, ltb, str_eq, eq_iff, ◌≡◌, refl,
  arith, if◌then◌else◌,
}
use siedler_sterreich.Toasts.{ok}
use siedler_sterreich.Actions.{
  Treasure, Page, Call, Reply, refused, granted, says, later, hints, rumour, loads_giants,
}
use siedler_sterreich.Actions.Hunt.{
  Found, without, is_gone, herald_tells, unlock_calls, claim_treasure_reply,
}

abbrev pub lists : String → List Treasure → Bool
lists id [] = false
lists id (t ∷ ts) = str_eq t.id id || lists id ts

abbrev pub is_granted : Reply Found → Bool
is_granted (refused e status) = false
is_granted (granted res) = true

-- The treasure is the player's, another's, or has moved on.
abbrev pub is_settled : Reply Found → Bool
is_settled (refused e status) = is_gone status
is_settled (granted res) = true

-- How often the giant trees are announced, by the herald or as a rumour, and asked for.
abbrev pub stories : List Call → ℕ
stories [] = 0
stories (later ms (hints key) ∷ calls) = 1 + stories calls
stories (later ms (says ok rumour) ∷ calls) = 1 + stories calls
stories (_ ∷ calls) = stories calls

abbrev pub scouts : List Call → ℕ
scouts [] = 0
scouts (loads_giants ∷ calls) = 1 + scouts calls
scouts (_ ∷ calls) = scouts calls

lists-without :
    (id gone : String) (ts : List Treasure)
    → lists id (without gone ts) ≡ (lists id ts && not (str_eq gone id))
lists-without id gone [] = refl
lists-without id gone (t ∷ ts) =
    ground (arith, lists-without id gone ts, eq_iff t.id gone, eq_iff t.id id, eq_iff gone id)

-- After an answer to claimTreasure the treasure is off the list exactly if it is settled, every other one stays, and
-- the giant trees are unlocked; they are asked for once, with the first treasure, and then announced once if the
-- herald has the story to tell or else giants are known, and not announced otherwise.
pub claim_treasure_reply-Once :
    (id : String) (t : Treasure) (a : Reply Found) (g : Page)
    → (lists id (claim_treasure_reply t a g).page.treasures
        ≡ (lists id g.treasures && not (str_eq t.id id && is_settled a)))
      × ((claim_treasure_reply t a g).page.tall_unlocked ≡ (is_granted a || g.tall_unlocked))
      × (scouts (claim_treasure_reply t a g).calls
          ≡ (if is_granted a && not g.tall_unlocked then 1 else 0))
      × (stories (claim_treasure_reply t a g).calls ≡ (
          if is_granted a && not g.tall_unlocked && (herald_tells g || ltb 0 g.tall_trees)
          then 1
          else 0))
unfolding claim_treasure_reply unlock_calls
claim_treasure_reply-Once id t (refused e status) g =
    ground (arith, lists-without id t.id g.treasures)
claim_treasure_reply-Once id t (granted res) g =
    (ground (arith, lists-without id t.id g.treasures), refl, ground arith, ground arith)
