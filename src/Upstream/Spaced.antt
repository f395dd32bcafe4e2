-- ===== src/Upstream/Spaced.antt =====
-- The toasts of an outage are spaced.
use siedler_sterreich.Prelude.{
  ℕ, ◌+◌, ◌-◌, ◌*◌, String, Bool, true, false, ◌&&◌, List, [], ◌∷◌, ltb, leb, str_eq, eq_iff,
  lookup, lookup-insert, ◌≡◌, refl, arith, if◌then◌else◌,
}
use siedler_sterreich.Upstream.{
  Outages, toasted, noted, retry_or_30, note_service, note_upstream_down, upstream_is_down,
}

-- What the page has noted, with the times of its toasts, the newest first.
pub data Reach : Outages → List ℕ → Type 0 where
  quiet : Reach [] []
  told :
      (now retry_s : ℕ) (service : String) (down : Outages) (times : List ℕ)
      → Reach down times
      → Reach
          (note_upstream_down now service retry_s down).0
          (if (note_upstream_down now service retry_s down).1 then now ∷ times else times)

abbrev pub last_time : List ℕ → ℕ
last_time [] = 0
last_time (t ∷ ts) = t

-- Each time is at least five minutes after the next one of the list.
abbrev pub are_spaced : List ℕ → Bool
are_spaced [] = true
are_spaced (t ∷ []) = true
are_spaced (t ∷ u ∷ ts) = leb (u + 300000) t && are_spaced (u ∷ ts)

are_spaced-next :
    (now : ℕ) (times : List ℕ)
    → are_spaced times ≡ true
    → ltb (now - last_time times) 300000 ≡ false
    → are_spaced (now ∷ times) ≡ true
are_spaced-next now [] s e = refl
are_spaced-next now (t ∷ ts) s e = ground (arith, s, e)

abbrev Kept : Outages → List ℕ → Type 0
Kept down times = (toasted (lookup "cadastre" down) ≡ last_time times) × (are_spaced times ≡ true)

note_service-kept :
    (now retry_s : ℕ) (service : String) (down : Outages) (times : List ℕ)
    → Kept down times
    → Kept
        (note_service now service retry_s down).0
        (if (note_service now service retry_s down).1 then now ∷ times else times)
unfolding note_service
note_service-kept now retry_s service down times k = ground (
  arith,
  k.0,
  k.1,
  eq_iff service "cadastre",
  lookup-insert service "cadastre" (noted now retry_s (lookup service down)) down,
  lookup-insert service "cadastre"
      (record (noted now retry_s (lookup service down)) { toast_at = now }) down,
  are_spaced-next now times k.1,
)

Reach-Kept : (down : Outages) (times : List ℕ) → Reach down times → Kept down times
unfolding note_upstream_down lookup
Reach-Kept _ _ quiet = (refl, refl)
Reach-Kept _ _ (told now retry_s service down times r) =
    note_service-kept now retry_s (if str_eq service "" then "data" else service) down times
      (Reach-Kept down times r)

-- Whatever is noted, and in whatever order, the toasts that tell of an outage come at least five minutes apart.
pub Reach-are_spaced :
    (down : Outages) (times : List ℕ) → Reach down times → are_spaced times ≡ true
Reach-are_spaced down times r = (Reach-Kept down times r).1

-- A service that has been noted is down for as many seconds as its reply says, or 30, and no other service is changed.
pub note_upstream_down-is_down :
    (now t retry_s : ℕ) (service other : String) (down : Outages)
    → str_eq service "" ≡ false
    → upstream_is_down t other (note_upstream_down now service retry_s down).0 ≡ (
        if str_eq service other
        then ltb (t - now) (retry_or_30 retry_s * 1000)
        else upstream_is_down t other down)
unfolding upstream_is_down note_upstream_down note_service
note_upstream_down-is_down now t retry_s service other down h = ground (
  arith,
  h,
  eq_iff service other,
  eq_iff service "cadastre",
  lookup-insert service other (noted now retry_s (lookup service down)) down,
  lookup-insert service other (record (noted now retry_s (lookup service down)) { toast_at = now })
      down,
)
