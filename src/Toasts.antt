-- ===== src/Toasts.antt =====
-- srv/static/game.js: `toast`, the short notices, their pacing and their queue. The page's container is there.
pub mod Counts
pub mod Neat
pub mod Tidy
use siedler_sterreich.Prelude.{
  ℕ, zero, suc, ◌+◌, ◌-◌, String, Bool, true, false, not, ◌&&◌, ◌||◌, List, [], ◌∷◌, ◌++◌, Option,
  none, some, is_some, ltb, leb, ◌==◌, str_eq, length, last_of, any, keep_if, if◌then◌else◌,
}

-- `type`: `'ok'`, `'err'` or neither.
pub data Kind : Type 0 where
  ok err info : Kind

-- `opts`; an empty key or a zero `ms` is absent.
pub record Opts : Type 0 where
  pub quiet : Bool
  pub now : Bool
  pub key : String
  pub ms : ℕ

-- An element of the container that is not `_gone`: its text, its count, and how long it stays.
pub record Shown : Type 0 where
  pub msg : String
  pub kind : Kind
  pub count : ℕ
  pub stays : ℕ

-- An entry of `_toastQ`.
pub record Waiting : Type 0 where
  pub msg : String
  pub kind : Kind
  pub opts : Opts
  pub at : ℕ

pub record Toasts : Type 0 where
  pub live : List Shown
  pub last_at : ℕ
  pub queue : List Waiting
  pub timer : Option ℕ

abbrev pub toast_gap : ℕ
toast_gap = 1500

abbrev pub toast_qmax : ℕ
toast_qmax = 4

abbrev pub toast_qage : ℕ
toast_qage = 12000

-- `toastMax`
unfoldable pub toast_max : ℕ → ℕ
toast_max inner_width = if leb inner_width 768 then 2 else 3

abbrev pub is_err : Kind → Bool
is_err err = true
is_err _ = false

abbrev pub is_ok : Kind → Bool
is_ok ok = true
is_ok _ = false

unfoldable pub is_live : String → List Shown → Bool
is_live m [] = false
is_live m (t ∷ ts) = str_eq t.msg m || is_live m ts

unfoldable pub is_queued : String → List Waiting → Bool
is_queued m [] = false
is_queued m (q ∷ qs) = str_eq q.msg m || is_queued m qs

abbrev pub some_live : List Shown → Bool
some_live [] = false
some_live (_ ∷ _) = true

abbrev pub some_queued : List Waiting → Bool
some_queued [] = false
some_queued (_ ∷ _) = true

-- Queued entries with the key of a newer one go.
unfoldable pub drop_key : String → List Waiting → List Waiting
drop_key k [] = []
drop_key k (q ∷ qs) = let rest = drop_key k qs in if str_eq q.opts.key k then rest else q ∷ rest

unfoldable pub wait_for_gap : ℕ → Waiting → Toasts → Toasts
unfolding drop_key last_of
wait_for_gap now q s = record s {
  queue =
      last_of toast_qmax
        ((if str_eq q.opts.key "" then s.queue else drop_key q.opts.key s.queue) ++ q ∷ []);
  timer = if is_some s.timer then s.timer else some (toast_gap - (now - s.last_at));
}

-- The text is on show: its count goes up, and it stays anew.
unfoldable pub bump : String → ℕ → List Shown → List Shown
bump m ms [] = []
bump m ms (t ∷ ts) =
    if str_eq t.msg m then record t { count = t.count + 1; stays = ms } ∷ ts else t ∷ bump m ms ts

abbrev pub lifetime : ℕ → Opts → ℕ
lifetime len opts = if opts.ms == 0 then (if ltb 90 len then 6500 else 4000) else opts.ms

-- A toast comes up; `len` is the length of its text. The oldest ones go if there are too many.
unfoldable pub show_toast : ℕ → ℕ → String → ℕ → Kind → Opts → Toasts → Toasts
unfolding is_live bump last_of toast_max
show_toast inner_width now msg len kind opts s = record s {
  last_at = now;
  live =
      if is_live msg s.live
      then bump msg (lifetime len opts) s.live
      else last_of (toast_max inner_width)
          (s.live ++ record { msg = msg; kind = kind; count = 1; stays = lifetime len opts } ∷ []);
}

-- `toast(msg, type, opts)` at the time `now`.
unfoldable pub toast : ℕ → Bool → ℕ → String → ℕ → Kind → Opts → Toasts → Toasts
unfolding is_live is_queued wait_for_gap show_toast
toast inner_width herald_up now msg len kind opts s =
    if opts.quiet
      && not opts.now
      && (some_live s.live
          || some_queued s.queue
          || herald_up
          || ltb (now - s.last_at) (toast_gap + toast_gap))
    then s
    else if not (is_err kind)
        && not (is_live msg s.live || is_queued msg s.queue)
        && not opts.now
        && ltb (now - s.last_at) toast_gap
    then wait_for_gap now (record { msg = msg; kind = kind; opts = opts; at = now }) s
    else if is_queued msg s.queue
    then s
    else show_toast inner_width now msg len kind opts s

-- The loop of `pump`: what is too old goes, but for an `'ok'`.
unfoldable pub drop_stale : ℕ → List Waiting → List Waiting
drop_stale now [] = []
drop_stale now (q ∷ qs) =
    let rest = drop_stale now qs in
    if ltb toast_qage (now - q.at) && not (is_ok q.kind) then rest else q ∷ qs

unfoldable pub show_first : ℕ → Bool → ℕ → (String → ℕ) → List Waiting → Toasts → Toasts
unfolding toast
show_first inner_width herald_up now length_of [] s = record s { queue = []; timer = none }
show_first inner_width herald_up now length_of (q ∷ qs) s =
    let shown =
      toast inner_width herald_up now q.msg (length_of q.msg) q.kind (record q.opts { now = true })
        (record s { queue = qs; timer = none }) in
    if some_queued shown.queue then record shown { timer = some toast_gap } else shown

-- `pump`: the timer fires.
unfoldable pub pump : ℕ → Bool → ℕ → (String → ℕ) → Toasts → Toasts
unfolding drop_stale show_first
pump inner_width herald_up now length_of s =
    show_first inner_width herald_up now length_of (drop_stale now s.queue) s

-- `dismiss`: a toast is clicked, or its time is up.
unfoldable pub dismiss_at : ℕ → List Shown → List Shown
dismiss_at n [] = []
dismiss_at zero (t ∷ ts) = ts
dismiss_at (suc n) (t ∷ ts) = t ∷ dismiss_at n ts

pub data Event : Toasts → Toasts → Type 0 where
  toasts :
      {s : Toasts} (inner_width : ℕ) (herald_up : Bool) (now : ℕ) (msg : String) (len : ℕ)
      (kind : Kind) (opts : Opts)
      → Event s (toast inner_width herald_up now msg len kind opts s)
  pumps :
      {s : Toasts} (inner_width : ℕ) (herald_up : Bool) (now : ℕ) (length_of : String → ℕ)
      → Event s (pump inner_width herald_up now length_of s)
  goes : {s : Toasts} (n : ℕ) → Event s (record s { live = dismiss_at n s.live })

abbrev pub no_toasts : Toasts
no_toasts = record { live = []; last_at = 0; queue = []; timer = none }

pub data Reach : Toasts → Type 0 where
  loaded : Reach no_toasts
  after : {s t : Toasts} → Reach s → Event s t → Reach t
