-- ===== src/Upstream.antt =====
-- srv/static/game.js: `noteUpstreamDown` and `upstreamIsDown`, the services that are down, and `apiStat`, the count of
-- requests by route. Times are milliseconds.
pub mod Spaced
use siedler_sterreich.Prelude.{
  ℕ, ◌+◌, ◌-◌, ◌*◌, String, Bool, true, false, ◌||◌, List, [], ◌∷◌, ◌++◌, Option, none, some, ltb,
  leb, ◌==◌, str_eq, lookup, insert, or_else, length, last_of, if◌then◌else◌,
}

pub record Outage : Type 0 where
  pub at : ℕ
  pub retry_s : ℕ
  pub toast_at : ℕ

abbrev pub Outages : Type 0
Outages = List (String × Outage)

abbrev pub toasted : Option Outage → ℕ
toasted none = 0
toasted (some prev) = prev.toast_at

-- `+retryS || 30`
abbrev pub retry_or_30 : ℕ → ℕ
retry_or_30 retry_s = if retry_s == 0 then 30 else retry_s

abbrev pub noted : ℕ → ℕ → Option Outage → Outage
noted now retry_s prev = record { at = now; retry_s = retry_or_30 retry_s; toast_at = toasted prev }

-- `noteUpstreamDown(service, retryS)`: the outages, and whether a toast tells of it; an empty name is absent.
unfoldable pub note_service : ℕ → String → ℕ → Outages → Outages × Bool
unfolding lookup insert
note_service now service retry_s down =
    let u = noted now retry_s (lookup service down) in
    if str_eq service "cadastre"
    then if ltb (now - u.toast_at) 300000
      then (insert service u down, false)
      else (insert service (record u { toast_at = now }) down, true)
    else (insert service u down, false)

unfoldable pub note_upstream_down : ℕ → String → ℕ → Outages → Outages × Bool
unfolding note_service
note_upstream_down now service retry_s down =
    note_service now (if str_eq service "" then "data" else service) retry_s down

-- `upstreamIsDown(service)`
abbrev pub is_out : ℕ → Option Outage → Bool
is_out now none = false
is_out now (some u) = ltb (now - u.at) (u.retry_s * 1000)

unfoldable pub upstream_is_down : ℕ → String → Outages → Bool
unfolding lookup
upstream_is_down now service down = is_out now (lookup service down)

-- `apiStat`, for a route: the response's status, its time, and whether a cache had it.
pub record Stat : Type 0 where
  pub n : ℕ
  pub err : ℕ
  pub hit : ℕ
  pub ms : List ℕ

abbrev pub no_stat : Stat
no_stat = record { n = 0; err = 0; hit = 0; ms = [] }

abbrev pub counts_if : Bool → ℕ → ℕ
counts_if b n = if b then n + 1 else n

unfoldable pub api_stat : String → ℕ → ℕ → String → List (String × Stat) → List (String × Stat)
unfolding lookup insert last_of
api_stat route status ms xcache stats =
    let st = or_else (lookup route stats) no_stat in
    insert route
      (record {
        n = st.n + 1;
        err = counts_if (leb 500 status || status == 0) st.err;
        hit = counts_if (str_eq xcache "HIT" || str_eq xcache "WARM") st.hit;
        ms = last_of 400 (st.ms ++ ms ∷ []);
      })
      stats
