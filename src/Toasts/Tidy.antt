-- ===== src/Toasts/Tidy.antt =====
-- The notices stay tidy: few, each once, and none forgotten.
use siedler_sterreich.Prelude.{
  ℕ, ◌+◌, ◌-◌, String, Bool, true, false, not, ◌&&◌, ◌||◌, List, [], ◌∷◌, none, is_some, ◌≡◌, ◌⊎◌,
  inl, inr, refl, arith, ltb, if_split,
}
use siedler_sterreich.Toasts.{
  Kind, Opts, Waiting, Toasts, toast_gap, is_err, is_live, is_queued, some_live, some_queued,
  wait_for_gap, show_toast, toast, drop_stale, show_first, pump, Event, toasts, pumps, goes, Reach,
  loaded, after,
}
use siedler_sterreich.Toasts.Counts.{on_show, in_queue, drop_stale-short, dismiss_at-on_show}
use siedler_sterreich.Toasts.Neat.{Neat, IsNeat, toast-IsNeat}

-- A timer is set while one waits.
abbrev pub IsTimed : Toasts → Type 0
IsTimed s = (s.queue ≡ []) ⊎ (is_some s.timer ≡ true)

wait_for_gap-IsTimed : (now : ℕ) (q : Waiting) (s : Toasts) → IsTimed (wait_for_gap now q s)
unfolding wait_for_gap
wait_for_gap-IsTimed now q s = inr (ground arith)

toast-IsTimed :
    (inner_width : ℕ) (herald_up : Bool) (now : ℕ) (msg : String) (len : ℕ) (kind : Kind)
    (opts : Opts) (s : Toasts)
    → IsTimed s
    → IsTimed (toast inner_width herald_up now msg len kind opts s)
unfolding toast show_toast
toast-IsTimed inner_width herald_up now msg len kind opts s t =
    if_split IsTimed
      (opts.quiet
        && not opts.now
        && (some_live s.live
            || some_queued s.queue
            || herald_up
            || ltb (now - s.last_at) (toast_gap + toast_gap)))
      (λ _. t)
      (λ _.
        if_split IsTimed
          (not (is_err kind)
            && not (is_live msg s.live || is_queued msg s.queue)
            && not opts.now
            && ltb (now - s.last_at) toast_gap)
          (λ e.
            wait_for_gap-IsTimed now (record { msg = msg; kind = kind; opts = opts; at = now }) s)
          (λ _. if_split IsTimed (is_queued msg s.queue) (λ _. t) (λ _. t)))

no_queue : (qs : List Waiting) → some_queued qs ≡ false → qs ≡ []
no_queue [] e = refl
no_queue (q ∷ qs) e = cc

-- What waits goes on waiting with a timer, when the first of it comes up.
show_first-IsNeat :
    (inner_width : ℕ) (herald_up : Bool) (now : ℕ) (length_of : String → ℕ) (qs : List Waiting)
    (s : Toasts)
    → Neat s.live qs
    → IsNeat (show_first inner_width herald_up now length_of qs s)
      × IsTimed (show_first inner_width herald_up now length_of qs s)
unfolding show_first in_queue
show_first-IsNeat inner_width herald_up now length_of [] s n = (n, inl refl)
show_first-IsNeat inner_width herald_up now length_of (q ∷ qs) s n =
    if_split {A = Toasts} (λ t. IsNeat t × IsTimed t) (some_queued shown.queue)
      (λ _. (neat, inr refl)) (λ e. (neat, inl (no_queue shown.queue e)))
  where
    shown : Toasts
    shown =
        toast inner_width herald_up now q.msg (length_of q.msg) q.kind
          (record q.opts { now = true }) (record s { queue = qs; timer = none })

    neat : IsNeat shown
    neat =
        toast-IsNeat inner_width herald_up now q.msg (length_of q.msg) q.kind
          (record q.opts { now = true }) (record s { queue = qs; timer = none })
          (record {
            few = n.few;
            short = omega (arith, n.short);
            once = λ m. omega (arith, n.once m);
          })

pub record IsTidy (s : Toasts) : Type 0 where
  pub neat : IsNeat s
  pub timed : IsTimed s

Event-IsTidy : {s t : Toasts} → Event s t → IsTidy s → IsTidy t
unfolding pump
Event-IsTidy {s} (toasts inner_width herald_up now msg len kind opts) i = record {
  neat = toast-IsNeat inner_width herald_up now msg len kind opts s i.neat;
  timed = toast-IsTimed inner_width herald_up now msg len kind opts s i.timed;
}
Event-IsTidy {s} (pumps inner_width herald_up now length_of) i =
    let first =
      show_first-IsNeat inner_width herald_up now length_of (drop_stale now s.queue) s (record {
        few = i.neat.few;
        short = omega (arith, i.neat.short, drop_stale-short "" now s.queue);
        once = λ m. omega (arith, i.neat.once m, drop_stale-short m now s.queue);
      }) in
    record { neat = first.0; timed = first.1 }
Event-IsTidy {s} (goes n) i = record {
  neat = record {
    few = omega (arith, i.neat.few, dismiss_at-on_show "" n s.live);
    short = i.neat.short;
    once = λ m. omega (arith, i.neat.once m, dismiss_at-on_show m n s.live);
  };
  timed = i.timed;
}

-- In every state that the notices can reach, at most three are on show and at most four wait, no text is there
-- twice, on show and in the queue together, and a timer is set while one waits.
pub Reach-IsTidy : (s : Toasts) → Reach s → IsTidy s
unfolding on_show in_queue
Reach-IsTidy _ loaded = record {
  neat = record { few = omega arith; short = omega arith; once = λ m. omega arith };
  timed = inl refl;
}
Reach-IsTidy _ (after {s = s} r e) = Event-IsTidy e (Reach-IsTidy s r)
