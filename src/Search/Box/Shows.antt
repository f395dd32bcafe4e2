-- ===== src/Search/Box/Shows.antt =====
-- What stands on the screen of a search box, through everything that can happen to it.
use siedler_sterreich.Prelude.{ℕ, String, Bool, true, List, [], ◌++◌, none, ◌≡◌, ◌⊎◌}
use siedler_sterreich.Search.Box.{
  Box, Screen, paint, repaint_reply, repaint_lookup, on_input, focus, fetch_lookup, fetch_remote,
  lookup_reply, remote_reply,
}
use siedler_sterreich.Search.Box.Sound.{shows_own, waits_for, landed}
use siedler_sterreich.Search.Box.Steps.{System, empty_box}

-- As `Reach`, with the screen; and the box may be painted again at any time, as for a key or when the table is loaded.
pub data Shows : System → Screen → Type 0 where
  opens : Shows (record { box = empty_box; flights = [] }) (paint empty_box)
  types :
      (q : String) (s : System) (screen : Screen)
      → Shows s screen
      → Shows (record s { box = on_input q s.box }) (paint (on_input q s.box))
  focuses :
      (q : String) (s : System) (screen : Screen)
      → Shows s screen
      → Shows (record s { box = focus q s.box }) (paint (focus q s.box))
  paints : (s : System) (screen : Screen) → Shows s screen → Shows s (paint s.box)
  asks_lookup :
      (q : String) (s : System) (screen : Screen)
      → Shows s screen
      → Shows
          (record s { box = fetch_lookup q s.box })
          (repaint_lookup q s.box (fetch_lookup q s.box) screen)
  gets_lookup :
      (q : String) (seq : ℕ) (rows : List String) (s : System) (screen : Screen)
      → Shows s screen
      → Shows
          (record s { box = lookup_reply q seq rows s.box })
          (repaint_reply q seq s.box (lookup_reply q seq rows s.box) screen)
  asks_remote :
      (q : String) (s : System) (screen : Screen)
      → Shows s screen
      → Shows
          (record s { box = fetch_remote q s.box; flights = waits_for q s.box ++ s.flights })
          (paint (fetch_remote q s.box))
  gets_remote :
      (is_game : Bool) (q : String) (seq : ℕ) (addr_local addr_all topo : List String) (s : System)
      (screen : Screen)
      → Shows s screen
      → Shows
          (record s {
            box = remote_reply is_game q seq addr_local addr_all topo s.box;
            flights = landed seq s.flights;
          })
          (repaint_reply q seq s.box
            (remote_reply is_game q seq addr_local addr_all topo s.box)
            screen)

-- The screen is for the query in the box, and has every row that `paint` would take for it now.
pub record IsShown (b : Box) (screen : Screen) : Type 0 where
  pub query : screen.q ≡ b.q
  pub own : shows_own b.q screen.addr ≡ true
  pub addr : ((paint b).addr ≡ none) ⊎ (screen.addr ≡ (paint b).addr)
  pub orte : ((paint b).orte ≡ none) ⊎ (screen.orte ≡ (paint b).orte)
