-- ===== src/Herald/Queue.antt =====
-- The queue in front of the box: what the herald says on his own waits until the player is calm.
pub mod Laws
use siedler_sterreich.Prelude.{
  ℕ, ◌+◌, String, Bool, true, false, ◌&&◌, ◌||◌, not, List, [], ◌∷◌, ◌++◌, Option, none, some, ltb,
  leb, ◌==◌, str_eq, is_some, any, if◌then◌else◌,
}
use siedler_sterreich.Herald.{Herald, Item, Surroundings}
use siedler_sterreich.Herald.Box.{play}

-- `calm(item)`
unfoldable pub calm : Surroundings → ℕ → Item → Herald → Bool
calm around now item h =
    not h.shown
    && not around.popup_open
    && not around.modal_open
    && around.on_game_screen
    && around.settled
    && not around.moving
    && (leb 2 item.prio || leb h.quiet_until now)

-- `pump(ms)`: one timer at a time.
abbrev pub pump : ℕ → Herald → Herald
pump ms h = if is_some h.pump_timer then h else record h { pump_timer = some ms }

unfoldable pub has_item : String → List Item → Bool
has_item k [] = false
has_item k (i ∷ is) = str_eq i.key k || has_item k is

-- `enqueue`
unfoldable pub enqueue : Item → Herald → Herald
unfolding has_item
enqueue item h =
    if not (str_eq item.key "") && has_item item.key h.queue
    then h
    else pump 400 (record h { queue = h.queue ++ item ∷ [] })

-- The life of a hint starts when it could play.
unfoldable pub start_life : Bool → ℕ → List Item → List Item
start_life free now [] = []
start_life free now (i ∷ is) =
    (if ltb 0 i.ttl && i.expires == 0 && free then record i { expires = now + i.ttl } else i)
    ∷ start_life free now is

abbrev pub alive : ℕ → Item → Bool
alive now i = i.expires == 0 || ltb now i.expires

unfoldable pub drop_dead : ℕ → List Item → List Item
drop_dead now [] = []
drop_dead now (i ∷ is) = let rest = drop_dead now is in if alive now i then i ∷ rest else rest

-- The stable sort by falling priority.
unfoldable pub insert_by_prio : Item → List Item → List Item
insert_by_prio i [] = i ∷ []
insert_by_prio i (j ∷ js) = if ltb i.prio j.prio then j ∷ insert_by_prio i js else i ∷ j ∷ js

unfoldable pub sort_by_prio : List Item → List Item
unfolding insert_by_prio
sort_by_prio [] = []
sort_by_prio (i ∷ is) = insert_by_prio i (sort_by_prio is)

-- `questsChanged`: the timer that names the next quest.
abbrev pub quests_changed : Herald → Herald
quests_changed h = if h.await_next then record h { next_timer = some 1200 } else h

-- The item is played, and a completion asks for the next quest's name.
unfoldable pub show_item : Bool → ℕ → Item → Herald → Herald
unfolding play
show_item reduced now i h =
    let played = play reduced now i.lines i.mode i.auto_hide i.compact h in
    if i.names_next then quests_changed (record played { await_next = true }) else played

abbrev pub pump_rest : List Item → Herald → Herald
pump_rest [] h = h
pump_rest (_ ∷ _) h = pump 1000 h

-- `_next` with its queue cleaned and sorted.
unfoldable pub play_first : Bool → Surroundings → ℕ → List Item → Herald → Herald
unfolding calm show_item
play_first reduced around now [] h = record h { queue = [] }
play_first reduced around now (q ∷ rest) h =
    if calm around now q h
    then pump_rest rest (show_item reduced now q (record h { queue = rest }))
    else pump 500 (record h { queue = q ∷ rest })

-- `_next`: the pump's timer fires.
unfoldable pub next : Bool → Surroundings → ℕ → Herald → Herald
unfolding start_life drop_dead sort_by_prio play_first
next reduced around now h =
    let free = not h.shown && leb h.quiet_until now in
    play_first reduced around now (sort_by_prio (drop_dead now (start_life free now h.queue)))
      (record h { pump_timer = none })
