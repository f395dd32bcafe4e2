-- ===== src/Search/Box/Steps.antt =====
-- Everything that can happen to a search box, in any order, and what then holds.
use siedler_sterreich.Prelude.{ℕ, String, Bool, false, List, [], ◌++◌, none}
use siedler_sterreich.Search.Box.{
  Box, on_input, focus, fetch_lookup, fetch_remote, lookup_reply, remote_reply,
}
use siedler_sterreich.Search.Box.Sound.{waits_for, landed}

-- The box with the numbers of the slow searches that have not come back.
pub record System : Type 0 where
  pub box : Box
  pub flights : List ℕ

abbrev pub empty_box : Box
empty_box = record {
  q = "";
  seq = 0;
  remote = none;
  remote_for = "";
  orte = none;
  orte_for = "";
  pending = false;
  cache = [];
  timer = none;
  timer_l = none;
}

-- The query changes, the field gets the focus, a timer fires, or a reply comes to a search, in any order and as late as it likes.
pub data Reach : System → Type 0 where
  opened : Reach (record { box = empty_box; flights = [] })
  typed : (q : String) (s : System) → Reach s → Reach (record s { box = on_input q s.box })
  focused : (q : String) (s : System) → Reach s → Reach (record s { box = focus q s.box })
  lookup_due : (q : String) (s : System) → Reach s → Reach (record s { box = fetch_lookup q s.box })
  lookup_came :
      (q : String) (seq : ℕ) (rows : List String) (s : System)
      → Reach s
      → Reach (record s { box = lookup_reply q seq rows s.box })
  remote_due :
      (q : String) (s : System)
      → Reach s
      → Reach (record s { box = fetch_remote q s.box; flights = waits_for q s.box ++ s.flights })
  remote_came :
      (is_game : Bool) (q : String) (seq : ℕ) (addr_local addr_all topo : List String) (s : System)
      → Reach s
      → Reach (record s {
        box = remote_reply is_game q seq addr_local addr_all topo s.box;
        flights = landed seq s.flights;
      })
