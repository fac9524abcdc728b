-- ===== src/Api/RateLimit.antt =====
-- `rateLimiter` of server/internal/api/middleware.go: a fixed-window counter for each identifier.
pub mod Bound
use proxify_vpn.Base.{
  Bool, List, Option, String, [], if◌then◌else◌, leb, length, ltb, none, not, some, true, ℕ, ◌+◌,
  ◌-◌, ◌=?◌,
}
use proxify_vpn.Base.Rows.{rows_where}
use proxify_vpn.Edge.Fake.{lookup, put}

pub record Window : Type 0 where
  pub count : ℕ
  pub start : ℕ

-- A duration and a time are numbers of nanoseconds.
pub record RateLimiter : Type 0 where
  pub limit : ℕ
  pub window : ℕ
  pub hits : List (String × Window)

abbrev pub new_rate_limiter : ℕ → ℕ → RateLimiter
new_rate_limiter limit per = record { limit = limit; window = per; hits = [] }

-- `now.Sub(w.start) > r.window`: a difference below 0 is not.
abbrev pub is_over : ℕ → ℕ → Window → Bool
is_over now window w = ltb window (now - w.start)

abbrev pub is_kept_hit : ℕ → ℕ → String × Window → Bool
is_kept_hit now window e = not (is_over now window e.1)

-- Stale windows go once the map is large.
abbrev pub evicted : ℕ → ℕ → List (String × Window) → List (String × Window)
evicted now window hits =
    if ltb 10000 (length hits) then rows_where (is_kept_hit now window) hits else hits

abbrev pub opened : ℕ → String → RateLimiter → Bool × RateLimiter
opened now key r = (true, record r { hits = put key (record { count = 1; start = now }) r.hits })

abbrev pub counted_hit : String → Window → RateLimiter → Bool × RateLimiter
counted_hit key w r = (
  leb (w.count + 1) r.limit,
  record r { hits = put key (record w { count = w.count + 1 }) r.hits },
)

abbrev pub on_window : ℕ → String → Option Window → RateLimiter → Bool × RateLimiter
on_window now key none r = opened now key r
on_window now key (some w) r =
    if is_over now r.window w then opened now key r else counted_hit key w r

abbrev pub with_evicted : ℕ → RateLimiter → RateLimiter
with_evicted now r = record r { hits = evicted now r.window r.hits }

-- `Allow`
unfoldable pub allow : ℕ → String → RateLimiter → Bool × RateLimiter
allow now key r =
    if key =? ""
    then (true, r)
    else on_window now key (lookup key (evicted now r.window r.hits)) (with_evicted now r)
