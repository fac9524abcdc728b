-- ===== src/Provision/Backoff.antt =====
-- server/internal/provision/backoff.go. A duration is a number of nanoseconds, and the jitter is
-- computed exactly, where the source rounds a float64.
use native.Mathlib.Nat.{mul-le-mul_left, pow-suc}
use proxify_vpn.Base.{
  Bool-cases, ap, arith, false, if◌then◌else◌, inl, inr, ltb, refl, suc, true, zero, ℕ, ◌*◌, ◌+◌,
  ◌-◌, ◌/◌, ◌<◌, ◌^◌, ◌∙◌, ◌≡◌, ◌≤◌,
}

abbrev pub backoff_base : ℕ
backoff_base = 2 * 1000000000

abbrev pub backoff_max : ℕ
backoff_max = 300 * 1000000000

-- The loop `for i := 1; i < tries && d < backoffMax; i++ { d *= 2 }`, with the rounds left.
unfoldable pub doubled : ℕ → ℕ → ℕ
doubled zero d = d
doubled (suc rounds) d = elim (ltb d backoff_max) [ true ↦ doubled rounds (d * 2) | false ↦ d ]

abbrev pub capped : ℕ → ℕ
capped d = if ltb backoff_max d then backoff_max else d

-- The delay before the jitter. An tries below 1 counts as 1.
unfoldable pub base_delay : ℕ → ℕ
unfolding doubled
base_delay tries = capped (doubled (tries - 1) backoff_base)

-- `float64(d) * (1 + (r*0.4 - 0.2))` for `r = k / 2^53`: d * (0.8 + 0.4 k / 2^53).
abbrev pub jittered : ℕ → ℕ → ℕ
jittered d k = d * (8 * 2 ^ 53 + 4 * k) / (10 * 2 ^ 53)

unfoldable pub backoff : ℕ → ℕ → ℕ
unfolding base_delay
backoff tries k = jittered (base_delay tries) k

abbrev pub least : ℕ → ℕ → ℕ
least a b = if ltb a b then a else b

pow-pos : (n : ℕ) → 1 ≤ 2 ^ n
pow-pos zero = omega arith
pow-pos (suc n) = rw (pow-suc 2 n) (omega (arith, pow-pos n))

capped-high : (d n : ℕ) → backoff_max ≤ d → 1 ≤ n → capped d ≡ capped (d * n)
capped-high d n h k = high (grind arith)
  where
    high : d ≤ d * n → capped d ≡ capped (d * n)
    high le = ground arith

doubled-pow : (rounds d : ℕ) → capped (doubled rounds d) ≡ capped (d * 2 ^ rounds)
unfolding doubled
doubled-pow zero d = one (d * 2 ^ 0) (omega arith)
  where
    one : (e : ℕ) → d ≡ e → capped d ≡ capped e
    one e p = ap capped p
doubled-pow (suc rounds) d = elim (Bool-cases (ltb d backoff_max)) [
  | inl less ↦
      rw (less, doubled)
        (doubled-pow rounds (d * 2) ∙ regroup (2 ^ rounds) (2 ^ suc rounds) (pow-suc 2 rounds))
  | inr done ↦
      rw (done, doubled) (capped-high d (2 ^ suc rounds) (ground arith) (pow-pos (suc rounds)))
]
  where
    regroup : (p q : ℕ) → q ≡ p * 2 → capped (d * 2 * p) ≡ capped (d * q)
    regroup p q e = let same : d * 2 * p ≡ d * q = rw e (omega arith) in ap capped same

-- Before the jitter the delay is two seconds, doubled for each tries after the first, and five
-- minutes at most.
pub base_delay-exponential :
    (tries : ℕ) → base_delay tries ≡ least backoff_max (backoff_base * 2 ^ (tries - 1))
unfolding base_delay
base_delay-exponential tries =
    doubled-pow (tries - 1) backoff_base ∙ capped-least (backoff_base * 2 ^ (tries - 1))
  where
    capped-least : (d : ℕ) → capped d ≡ least backoff_max d
    capped-least d = refl

base_delay-bounds :
    (tries : ℕ) → (backoff_base ≤ base_delay tries) × (base_delay tries ≤ backoff_max)
base_delay-bounds tries =
    let positive = pow-pos (tries - 1) in ground (arith, base_delay-exponential tries)

jittered-bounds :
    (d k : ℕ) → k < 2 ^ 53 → (4 * d < 5 * (jittered d k + 1)) × (5 * jittered d k ≤ 6 * d)
jittered-bounds d k h =
    let small : d * k ≤ d * 2 ^ 53 = mul-le-mul_left d (omega arith) in (omega arith, omega arith)

-- The delay is within a fifth of the one before the jitter, up to the rounding to a nanosecond. So it
-- is positive, and six minutes at most.
pub backoff-bounds :
    (tries k : ℕ)
    → k < 2 ^ 53
    → (4 * base_delay tries < 5 * (backoff tries k + 1))
      × (5 * backoff tries k ≤ 6 * base_delay tries)
      × (1 ≤ backoff tries k)
      × (backoff tries k ≤ 360 * 1000000000)
unfolding backoff
backoff-bounds tries k h =
    let (low, high) = jittered-bounds (base_delay tries) k h in
    let (base_low, base_high) = base_delay-bounds tries in (low, high, omega arith, omega arith)

-- The cap of five minutes holds before the jitter only: once the doubling has reached it, a draw a
-- little above the middle gives a longer delay.
pub backoff-over_cap :
    (tries k : ℕ)
    → backoff_max ≤ backoff_base * 2 ^ (tries - 1)
    → 2 ^ 52 + 2 ^ 17 ≤ k
    → backoff_max < backoff tries k
unfolding backoff
backoff-over_cap tries k h large =
    rw (at_cap (ground (arith, base_delay-exponential tries))) (omega arith)
  where
    at_cap : base_delay tries ≡ backoff_max → base_delay tries ≡ backoff_max
    at_cap e = e
