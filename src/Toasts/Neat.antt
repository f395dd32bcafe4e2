-- ===== src/Toasts/Neat.antt =====
-- A toast keeps the notices few and each once.
use siedler_sterreich.Prelude.{
  ℕ, ◌+◌, ◌-◌, ◌≤◌, String, Bool, false, not, ◌&&◌, ◌||◌, List, [], ◌∷◌, ◌++◌, ◌≡◌, inl, inr, arith,
  ltb, str_eq, eq_iff, length, last_of, last_of-length, if_split, Bool-cases, subst, if◌then◌else◌,
}
use siedler_sterreich.Toasts.{
  Kind, Opts, Shown, Waiting, Toasts, toast_gap, toast_qmax, toast_max, is_err, is_live, is_queued,
  some_live, some_queued, drop_key, wait_for_gap, bump, lifetime, show_toast, toast,
}
use siedler_sterreich.Toasts.Counts.{
  on_show, in_queue, is_live-on_show, is_queued-in_queue, on_show-append, in_queue-append,
  last_of-on_show, last_of-in_queue, drop_key-in_queue, bump-length, bump-on_show,
}

-- At most three toasts, at most four that wait, and no text twice on show or in the queue.
pub record Neat (live : List Shown) (queue : List Waiting) : Type 0 where
  pub few : length live ≤ 3
  pub short : length queue ≤ 4
  pub once : (m : String) → on_show m live + in_queue m queue ≤ 1

abbrev pub IsNeat : Toasts → Type 0
IsNeat s = Neat s.live s.queue

toast_max_le : (inner_width : ℕ) → toast_max inner_width ≤ 3
unfolding toast_max
toast_max_le inner_width = ground arith

show_toast-IsNeat :
    (inner_width now : ℕ) (msg : String) (len : ℕ) (kind : Kind) (opts : Opts) (s : Toasts)
    → is_queued msg s.queue ≡ false
    → IsNeat s
    → IsNeat (show_toast inner_width now msg len kind opts s)
unfolding show_toast on_show
show_toast-IsNeat inner_width now msg len kind opts s free t = record {
  few =
      if_split {x = bump msg (lifetime len opts) s.live}
        {y = last_of (toast_max inner_width) (s.live ++ fresh ∷ [])} (λ l. length l ≤ 3)
        (is_live msg s.live) (λ _. omega (arith, bump-length msg (lifetime len opts) s.live, t.few))
        (λ _. omega (
          arith,
          last_of-length (toast_max inner_width) (s.live ++ fresh ∷ []),
          toast_max_le inner_width,
        ));
  short = t.short;
  once = λ m.
      if_split {x = bump msg (lifetime len opts) s.live}
        {y = last_of (toast_max inner_width) (s.live ++ fresh ∷ [])}
        (λ l. on_show m l + in_queue m s.queue ≤ 1) (is_live msg s.live)
        (λ _. omega (arith, bump-on_show msg m (lifetime len opts) s.live, t.once m))
        (λ e. added m e);
}
  where
    fresh : Shown
    fresh = record { msg = msg; kind = kind; count = 1; stays = lifetime len opts }

    added :
        (m : String)
        → is_live msg s.live ≡ false
        → on_show m (last_of (toast_max inner_width) (s.live ++ fresh ∷ [])) + in_queue m s.queue
          ≤ 1
    added m e = elim (Bool-cases (str_eq msg m)) [
      | inl same ↦
          let p : msg ≡ m = (eq_iff msg m).0 same in
          ground (
            arith,
            same,
            last_of-on_show m (toast_max inner_width) (s.live ++ fresh ∷ []),
            on_show-append m s.live (fresh ∷ []),
            subst (λ k. on_show k s.live ≡ 0) p (is_live-on_show msg s.live e),
            subst (λ k. in_queue k s.queue ≡ 0) p (is_queued-in_queue msg s.queue free),
          )
      | inr other ↦ ground (
        arith,
        other,
        last_of-on_show m (toast_max inner_width) (s.live ++ fresh ∷ []),
        on_show-append m s.live (fresh ∷ []),
        t.once m,
      )
    ]

-- The queue without the key of the new entry, which has a text that is neither on show nor queued.
wait_for_gap-IsNeat :
    (now : ℕ) (q : Waiting) (s : Toasts)
    → is_live q.msg s.live || is_queued q.msg s.queue ≡ false
    → IsNeat s
    → IsNeat (wait_for_gap now q s)
unfolding wait_for_gap in_queue
wait_for_gap-IsNeat now q s free t = record {
  few = t.few;
  short = last_of-length toast_qmax (kept ++ q ∷ []);
  once = once;
}
  where
    kept : List Waiting
    kept = if str_eq q.opts.key "" then s.queue else drop_key q.opts.key s.queue

    fewer : (m : String) → in_queue m kept ≤ in_queue m s.queue
    fewer m =
        if_split (λ l. in_queue m l ≤ in_queue m s.queue) (str_eq q.opts.key "") (λ _. omega arith)
          (λ _. drop_key-in_queue m q.opts.key s.queue)

    once : (m : String) → on_show m s.live + in_queue m (last_of toast_qmax (kept ++ q ∷ [])) ≤ 1
    once m = elim (Bool-cases (str_eq q.msg m)) [
      | inl same ↦
          let p : q.msg ≡ m = (eq_iff q.msg m).0 same in
          ground (
            arith,
            same,
            fewer m,
            last_of-in_queue m toast_qmax (kept ++ q ∷ []),
            in_queue-append m kept (q ∷ []),
            subst (λ k. on_show k s.live ≡ 0) p
                (is_live-on_show q.msg s.live (ground (arith, free))),
            subst (λ k. in_queue k s.queue ≡ 0) p
                (is_queued-in_queue q.msg s.queue (ground (arith, free))),
          )
      | inr other ↦ ground (
        arith,
        other,
        fewer m,
        last_of-in_queue m toast_qmax (kept ++ q ∷ []),
        in_queue-append m kept (q ∷ []),
        t.once m,
      )
    ]

pub toast-IsNeat :
    (inner_width : ℕ) (herald_up : Bool) (now : ℕ) (msg : String) (len : ℕ) (kind : Kind)
    (opts : Opts) (s : Toasts)
    → IsNeat s
    → IsNeat (toast inner_width herald_up now msg len kind opts s)
unfolding toast
toast-IsNeat inner_width herald_up now msg len kind opts s t =
    if_split IsNeat
      (opts.quiet
        && not opts.now
        && (some_live s.live
            || some_queued s.queue
            || herald_up
            || ltb (now - s.last_at) (toast_gap + toast_gap)))
      (λ _. t)
      (λ _.
        if_split IsNeat
          (not (is_err kind)
            && not (is_live msg s.live || is_queued msg s.queue)
            && not opts.now
            && ltb (now - s.last_at) toast_gap)
          (λ e.
            wait_for_gap-IsNeat now (record { msg = msg; kind = kind; opts = opts; at = now }) s
              (ground (arith, e)) t)
          (λ _.
            if_split IsNeat (is_queued msg s.queue) (λ _. t)
              (λ free. show_toast-IsNeat inner_width now msg len kind opts s free t)))
