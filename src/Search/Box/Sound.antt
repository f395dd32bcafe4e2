-- ===== src/Search/Box/Sound.antt =====
-- What holds of a search box, and that no event spoils it.
use siedler_sterreich.Prelude.{
  ℕ, ◌+◌, String, Bool, true, false, not, ◌&&◌, ◌||◌, List, [], ◌∷◌, ◌++◌, Option, none, some,
  is_some, ◌==◌, str_eq, str_eq_refl, eq_iff, codes, lookup, insert, ◌≡◌, refl, ap, ◌∙◌, arith,
  keep_if, take, if_split, if◌then◌else◌,
}
use siedler_sterreich.Search.Box.{
  Cached, addresses, places, Box, lookup_key, note_orte, note_remote, plan_remote, on_input, focus,
  fetch_lookup, fetch_remote, distinct_rows, lookup_reply, remote_reply, evict, lookup_wanted,
  painted_remote,
}

abbrev pub waits_for : String → Box → List ℕ
waits_for q b = elim (lookup q b.cache) [ some c ↦ [] | none ↦ (b.seq + 1) ∷ [] ]

abbrev pub landed : ℕ → List ℕ → List ℕ
landed seq flights = keep_if (λ (n : ℕ). not (n == seq)) flights

-- What may stand under a key, and be kept as the rows for a query.
abbrev pub fits : String → Cached → Bool
fits key (addresses asked addr topo) = str_eq asked key
fits key (places asked rows) = str_eq (lookup_key asked) key

abbrev pub kept_fits : String → Option Cached → Bool
kept_fits key none = true
kept_fits key (some c) = fits key c

abbrev pub all_fit : List (String × Cached) → Bool
all_fit [] = true
all_fit (entry ∷ rest) = fits entry.0 entry.1 && all_fit rest

abbrev pub flies : ℕ → List ℕ → Bool
flies seq [] = false
flies seq (n ∷ ns) = n == seq || flies seq ns

-- The rows of addresses on show were asked for with the query in the box.
abbrev pub shows_own : String → Option Cached → Bool
shows_own q none = true
shows_own q (some (addresses asked addr topo)) = str_eq asked q
shows_own q (some (places asked rows)) = true

pub record IsSound (b : Box) (flights : List ℕ) : Type 0 where
  pub cached : all_fit b.cache ≡ true
  pub kept : kept_fits b.remote_for b.remote ≡ true
  pub shown : shows_own b.q (painted_remote b) ≡ true
  pub awaited : (b.pending && not (is_some b.timer || flies b.seq flights)) ≡ false

fits-lookup :
    (key : String) (cache : List (String × Cached))
    → all_fit cache ≡ true
    → kept_fits key (lookup key cache) ≡ true
unfolding lookup
fits-lookup key [] h = refl
fits-lookup key (entry ∷ rest) h = ground (arith, h, fits-lookup key rest, eq_iff entry.0 key)

all_fit-insert :
    (key : String) (c : Cached) (cache : List (String × Cached))
    → fits key c ≡ true
    → all_fit cache ≡ true
    → all_fit (insert key c cache) ≡ true
unfolding insert
all_fit-insert key c [] f h = ground (arith, f)
all_fit-insert key c (entry ∷ rest) f h = ground (arith, f, h, all_fit-insert key c rest f)

all_fit-evict :
    (cache : List (String × Cached)) → all_fit cache ≡ true → all_fit (evict cache) ≡ true
unfolding evict
all_fit-evict [] h = refl
all_fit-evict (entry ∷ rest) h = ground (arith, h)

flies-landed :
    (seq other : ℕ) (flights : List ℕ)
    → flies other (landed seq flights) ≡ (flies other flights && not (seq == other))
flies-landed seq other [] = refl
flies-landed seq other (n ∷ ns) = ground (arith, flies-landed seq other ns)

shown_of :
    (q key : String) (o : Option Cached)
    → kept_fits key o ≡ true
    → shows_own q (if str_eq key q then o else none) ≡ true
shown_of q key none h = ground arith
shown_of q key (some (addresses asked addr topo)) h = ground (arith, h, eq_iff key q)
shown_of q key (some (places asked rows)) h = ground arith

-- The three facts that an event has to keep; the rows on show follow.
pub sound :
    (b : Box) (flights : List ℕ)
    → all_fit b.cache ≡ true
    → kept_fits b.remote_for b.remote ≡ true
    → (b.pending && not (is_some b.timer || flies b.seq flights)) ≡ false
    → IsSound b flights
sound b flights c k w = record {
  cached = c;
  kept = k;
  shown = shown_of b.q b.remote_for b.remote k;
  awaited = w;
}

note_remote-kept :
    (q : String) (b : Box)
    → all_fit b.cache ≡ true
    → kept_fits b.remote_for b.remote ≡ true
    → (all_fit (note_remote q b).cache ≡ true)
      × (kept_fits (note_remote q b).remote_for (note_remote q b).remote ≡ true)
unfolding note_remote
note_remote-kept q b c k = ground (arith, c, k, fits-lookup q b.cache c)

plan_remote-kept :
    (q : String) (b : Box)
    → all_fit b.cache ≡ true
    → kept_fits b.remote_for b.remote ≡ true
    → (all_fit (plan_remote q b).cache ≡ true)
      × (kept_fits (plan_remote q b).remote_for (plan_remote q b).remote ≡ true)
unfolding plan_remote
plan_remote-kept q b c k = ground (arith, c, k, fits-lookup q b.cache c)

plan_remote-awaited :
    (q : String) (b : Box) (flights : List ℕ)
    → ((plan_remote q b).pending
        && not (is_some (plan_remote q b).timer || flies (plan_remote q b).seq flights))
      ≡ false
unfolding plan_remote
plan_remote-awaited q b flights = ground arith

note_orte-same :
    (q : String) (b : Box)
    → ((note_orte q b).cache ≡ b.cache)
      × ((note_orte q b).remote ≡ b.remote)
      × ((note_orte q b).remote_for ≡ b.remote_for)
unfolding note_orte
note_orte-same q b = ground arith

pub typed-IsSound :
    (q : String) (b : Box) (flights : List ℕ) → IsSound b flights → IsSound (on_input q b) flights
unfolding on_input
typed-IsSound q b flights i =
    sound (on_input q b) flights planned.0 planned.1
      (plan_remote-awaited q (note_remote q noted) flights)
  where
    cleared : Box
    cleared = record b { q = q; timer = none }

    noted : Box
    noted = record (note_orte q cleared) {
      timer_l = if lookup_wanted (codes q) then some q else none;
    }

    planned :
        (all_fit (plan_remote q (note_remote q noted)).cache ≡ true)
        × (kept_fits
              (plan_remote q (note_remote q noted)).remote_for
              (plan_remote q (note_remote q noted)).remote
            ≡ true)
    planned =
        let same = note_orte-same q cleared in
        let kept =
          note_remote-kept q noted (ap all_fit same.0 ∙ i.cached) (cc (same.1, same.2, i.kept)) in
        plan_remote-kept q (note_remote q noted) kept.0 kept.1

pub focused-IsSound :
    (q : String) (b : Box) (flights : List ℕ) → IsSound b flights → IsSound (focus q b) flights
focused-IsSound q b flights i = sound (focus q b) flights i.cached i.kept i.awaited

due-awaited :
    (q : String) (b : Box) (flights : List ℕ)
    → ((fetch_remote q b).pending
        && not (
            is_some (fetch_remote q b).timer
            || flies (fetch_remote q b).seq (waits_for q b ++ flights)))
      ≡ false
unfolding fetch_remote
due-awaited q b flights = ground arith

due-kept :
    (q : String) (b : Box)
    → all_fit b.cache ≡ true
    → kept_fits b.remote_for b.remote ≡ true
    → (all_fit (fetch_remote q b).cache ≡ true)
      × (kept_fits (fetch_remote q b).remote_for (fetch_remote q b).remote ≡ true)
unfolding fetch_remote
due-kept q b c k = ground (arith, c, k, fits-lookup q b.cache c)

pub due-IsSound :
    (q : String) (b : Box) (flights : List ℕ)
    → IsSound b flights
    → IsSound (fetch_remote q b) (waits_for q b ++ flights)
due-IsSound q b flights i =
    let kept = due-kept q b i.cached i.kept in
    sound (fetch_remote q b) (waits_for q b ++ flights) kept.0 kept.1 (due-awaited q b flights)

pub came-IsSound :
    (is_game : Bool) (q : String) (seq : ℕ) (addr_local addr_all topo : List String) (b : Box)
    (flights : List ℕ)
    → IsSound b flights
    → IsSound (remote_reply is_game q seq addr_local addr_all topo b) (landed seq flights)
unfolding remote_reply
came-IsSound is_game q seq addr_local addr_all topo b flights i =
    sound (remote_reply is_game q seq addr_local addr_all topo b) (landed seq flights)
      (if_split {A = Box} (λ b. all_fit b.cache ≡ true) (seq == b.seq) (λ _. filled) (λ _. filled))
      (if_split {A = Box} (λ b. kept_fits b.remote_for b.remote ≡ true) (seq == b.seq)
        (λ _. str_eq_refl q) (λ _. i.kept))
      (ground (arith, i.awaited, flies-landed seq b.seq flights))
  where
    found : Cached
    found =
        addresses q (take (if is_game then 6 else 5) (distinct_rows [] (addr_local ++ addr_all)))
          topo

    filled : all_fit (evict (insert q found b.cache)) ≡ true
    filled =
        all_fit-evict (insert q found b.cache)
          (all_fit-insert q found b.cache (str_eq_refl q) i.cached)

pub lookup_due-IsSound :
    (q : String) (b : Box) (flights : List ℕ)
    → IsSound b flights
    → IsSound (fetch_lookup q b) flights
unfolding fetch_lookup
lookup_due-IsSound q b flights i =
    sound (fetch_lookup q b) flights (ground (arith, i.cached)) (ground (arith, i.kept))
      (ground (arith, i.awaited))

pub lookup_came-IsSound :
    (q : String) (seq : ℕ) (rows : List String) (b : Box) (flights : List ℕ)
    → IsSound b flights
    → IsSound (lookup_reply q seq rows b) flights
unfolding lookup_reply
lookup_came-IsSound q seq rows b flights i =
    sound (lookup_reply q seq rows b) flights
      (if_split {A = Box} (λ b. all_fit b.cache ≡ true) (seq == b.seq) (λ _. filled) (λ _. filled))
      (if_split {A = Box} (λ b. kept_fits b.remote_for b.remote ≡ true) (seq == b.seq) (λ _. i.kept)
        (λ _. i.kept))
      (if_split {A = Box} (λ b. (b.pending && not (is_some b.timer || flies b.seq flights)) ≡ false)
        (seq == b.seq) (λ _. i.awaited) (λ _. i.awaited))
  where
    found : Cached
    found = places q (take 4 (distinct_rows [] rows))

    filled : all_fit (insert (lookup_key q) found b.cache) ≡ true
    filled = all_fit-insert (lookup_key q) found b.cache (str_eq_refl (lookup_key q)) i.cached
