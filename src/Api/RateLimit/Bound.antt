-- ===== src/Api/RateLimit/Bound.antt =====
-- How many calls `Allow` of server/internal/api/middleware.go lets through in a window.
use mathlib.Core.Path.{ap₂}
use proxify_vpn.Api.RateLimit.{
  RateLimiter, Window, allow, counted_hit, evicted, is_kept_hit, is_over, on_window, opened,
  with_evicted,
}
use proxify_vpn.Base.{
  =?-eq, =?-refl, All, All-map, Bool-cases, List, Option, String, [], arith, false, greatest,
  if◌then◌else◌, inl, inr, leb, length, ltb, none, refl, some, subst, suc, sym, true, ℕ, ◌&&◌, ◌+◌,
  ◌-◌, ◌=?◌, ◌∙◌, ◌∷◌, ◌≡◌, ◌≤◌, ◌⊎◌,
}
use proxify_vpn.Base.Rows.{change, rows_where}
use proxify_vpn.Edge.Fake.{lookup}
use proxify_vpn.Edge.Fake.Held.{lookup-put, lookup-put-other}

-- The calls of `key` that a run lets through. A call is its time and its key.
unfoldable pub admitted : String → List (ℕ × String) → RateLimiter → ℕ
admitted key [] r = 0
admitted key ((now, k) ∷ calls) r =
    let rest = admitted key calls (allow now k r).1 in
    if k =? key && (allow now k r).0 then suc rest else rest

module _ (now window : ℕ) (key : String) where
  kept-none :
      (hits : List (String × Window))
      → lookup key hits ≡ none
      → lookup key (rows_where (is_kept_hit now window) hits) ≡ none
  kept-none [] h = refl
  kept-none (e ∷ hits) h = elim (Bool-cases (e.0 =? key)) [
    | inl hit ↦ absurd (ground arith)
    | inr miss ↦ ground (arith, kept-none hits)
  ]

  kept-some :
      (hits : List (String × Window)) (w : Window)
      → lookup key hits ≡ some w
      → is_over now window w ≡ false
      → lookup key (rows_where (is_kept_hit now window) hits) ≡ some w
  kept-some [] w h fresh = absurd (ground arith)
  kept-some (e ∷ hits) w h fresh = elim (Bool-cases (e.0 =? key)) [
    | inl hit ↦ ground arith
    | inr miss ↦ ground (arith, kept-some hits w)
  ]

  evicted-none :
      (hits : List (String × Window))
      → lookup key hits ≡ none
      → lookup key (evicted now window hits) ≡ none
  evicted-none hits h = elim (Bool-cases (ltb 10000 (length hits))) [
    | inl large ↦ rw large (kept-none hits h)
    | inr small ↦ rw small h
  ]

  evicted-some :
      (hits : List (String × Window)) (w : Window)
      → lookup key hits ≡ some w
      → is_over now window w ≡ false
      → lookup key (evicted now window hits) ≡ some w
  evicted-some hits w h fresh = elim (Bool-cases (ltb 10000 (length hits))) [
    | inl large ↦ rw large (kept-some hits w h fresh)
    | inr small ↦ rw small h
  ]

-- A call for another key leaves the key's window as the eviction did.
other_key :
    (now : ℕ) (key k : String) (o : Option Window) (r : RateLimiter)
    → (k =? key) ≡ false
    → lookup key (on_window now k o r).1.hits ≡ lookup key r.hits
other_key now key k none r other = lookup-put-other key k _ r.hits other
other_key now key k (some w) r other = elim (Bool-cases (is_over now r.window w)) [
  | inl over ↦ rw over (lookup-put-other key k _ r.hits other)
  | inr open_window ↦ rw open_window (lookup-put-other key k _ r.hits other)
]

abbrev KeepsSettings : RateLimiter → RateLimiter → Type 0
KeepsSettings r r' = (r'.limit ≡ r.limit) × (r'.window ≡ r.window)

on_window-KeepsSettings :
    (now : ℕ) (k : String) (o : Option Window) (r : RateLimiter)
    → KeepsSettings r (on_window now k o r).1
on_window-KeepsSettings now k none r = (refl, refl)
on_window-KeepsSettings now k (some w) r = elim (Bool-cases (is_over now r.window w)) [
  | inl over ↦ rw over (refl, refl)
  | inr open_window ↦ rw open_window (refl, refl)
]

allow-KeepsSettings : (now : ℕ) (k : String) (r : RateLimiter) → KeepsSettings r (allow now k r).1
unfolding allow
allow-KeepsSettings now k r = elim (Bool-cases (k =? "")) [
  | inl unnamed ↦ rw unnamed (refl, refl)
  | inr named ↦ rw named (on_window-KeepsSettings now k _ (with_evicted now r))
]

allow-other :
    (now : ℕ) (key k : String) (r : RateLimiter) (w : Window)
    → (k =? key) ≡ false
    → lookup key r.hits ≡ some w
    → is_over now r.window w ≡ false
    → lookup key (allow now k r).1.hits ≡ some w
unfolding allow
allow-other now key k r w other h fresh = elim (Bool-cases (k =? "")) [
  | inl unnamed ↦ rw unnamed h
  | inr named ↦ rw named (
      other_key now key k (lookup k (evicted now r.window r.hits)) (with_evicted now r) other
      ∙ evicted-some now r.window key r.hits w h fresh)
]

-- A call within the key's window.
allow-own :
    (now : ℕ) (key : String) (r : RateLimiter) (w : Window)
    → (key =? "") ≡ false
    → lookup key r.hits ≡ some w
    → is_over now r.window w ≡ false
    → allow now key r ≡ counted_hit key w (with_evicted now r)
unfolding allow
allow-own now key r w named h fresh =
    rw (named, evicted-some now r.window key r.hits w h fresh, fresh) refl

-- The key's window after a call, and whether the call was one of the key's that was let through.
abbrev Step : String → ℕ → String → RateLimiter → Window → Type 0
Step key now k r w =
    (v : Window) × (lookup key (allow now k r).1.hits ≡ some v)
    × (v.start ≡ w.start)
    × ((((k =? key && (allow now k r).0) ≡ false) × (w.count ≤ v.count))
        ⊎ (((k =? key && (allow now k r).0) ≡ true)
            × (v.count ≡ w.count + 1)
            × (v.count ≤ r.limit)))

step :
    (key : String) (now : ℕ) (k : String) (r : RateLimiter) (w : Window)
    → (key =? "") ≡ false
    → lookup key r.hits ≡ some w
    → is_over now r.window w ≡ false
    → Step key now k r w
step key now k r w named h fresh = elim (Bool-cases (k =? key)) [
  | inl own ↦ subst (λ x. Step key now x r w) (sym (=?-eq k key own)) counted
  | inr other ↦ (w, allow-other now key k r w other h fresh, refl, inl (rw other refl, omega arith))
]
  where
    v : Window
    v = record w { count = w.count + 1 }

    counted : Step key now key r w
    counted = (
      v,
      rw (allow-own now key r w named h fresh) (lookup-put key v (evicted now r.window r.hits)),
      refl,
      rw (allow-own now key r w named h fresh, =?-refl key)
          (elim (Bool-cases (leb (w.count + 1) r.limit)) [
            | inl fits ↦ inr (fits, refl, ground arith)
            | inr full ↦ inl (full, omega arith)
          ]),
    )

admitted-within :
    (key : String) (calls : List (ℕ × String)) (r : RateLimiter) (w : Window)
    → (key =? "") ≡ false
    → lookup key r.hits ≡ some w
    → All (λ c. c.0 ≤ w.start + r.window) calls
    → admitted key calls r ≤ r.limit - w.count
unfolding admitted
admitted-within key [] r w named h within = omega arith
admitted-within key ((now, k) ∷ calls) r w named h within =
    let (v, found, start, change) = step key now k r w named h (ground (arith, within.0)) in
    let same = allow-KeepsSettings now k r in
    let rest =
      admitted-within key calls (allow now k r).1 v named found
        (subst (λ x. All (λ c. c.0 ≤ x) calls) (sym (ap₂ ◌+◌ start same.1)) within.1) in
    elim change [
      | inl (passed_by, more) ↦ rw (passed_by, admitted) (omega (arith, rest, same.0, more))
      | inr (let_through, one, room) ↦
          rw (let_through, admitted) (omega (arith, rest, same.0, one, room))
    ]

allow-first :
    (now : ℕ) (key : String) (r : RateLimiter)
    → (key =? "") ≡ false
    → lookup key r.hits ≡ none
    → allow now key r ≡ opened now key (with_evicted now r)
unfolding allow
allow-first now key r named h = rw (named, evicted-none now r.window key r.hits h) refl

allow-elsewhere :
    (now : ℕ) (key k : String) (r : RateLimiter)
    → (k =? key) ≡ false
    → lookup key r.hits ≡ none
    → lookup key (allow now k r).1.hits ≡ none
unfolding allow
allow-elsewhere now key k r other h = elim (Bool-cases (k =? "")) [
  | inl unnamed ↦ rw unnamed h
  | inr named ↦ rw named (
      other_key now key k (lookup k (evicted now r.window r.hits)) (with_evicted now r) other
      ∙ evicted-none now r.window key r.hits h)
]

after_first :
    (key : String) (t now : ℕ) (calls : List (ℕ × String)) (r : RateLimiter)
    → (key =? "") ≡ false
    → lookup key r.hits ≡ none
    → ((t ≤ now) × (now ≤ t + r.window)) × All (λ c. (t ≤ c.0) × (c.0 ≤ t + r.window)) calls
    → admitted key ((now, key) ∷ calls) r ≤ greatest 1 r.limit
unfolding admitted
after_first key t now calls r named h within =
    rw (allow-first now key r named h, =?-refl key, admitted) (ground (arith, rest))
  where
    w : Window
    w = record { count = 1; start = now }

    r' : RateLimiter
    r' = (opened now key (with_evicted now r)).1

    rest : admitted key calls r' ≤ r.limit - 1
    rest =
        admitted-within key calls r' w named (lookup-put key w (evicted now r.window r.hits))
          (All-map _ _ calls (λ c h. omega (arith, h.1, within.0.0)) within.1)

-- Of the calls that fall within one window's length, however the other keys' calls mix with them, at
-- most `limit` calls of a key that starts afresh are let through (one, if the limit is 0).
pub allow-limit :
    (key : String) (t : ℕ) (calls : List (ℕ × String)) (r : RateLimiter)
    → (key =? "") ≡ false
    → lookup key r.hits ≡ none
    → All (λ c. (t ≤ c.0) × (c.0 ≤ t + r.window)) calls
    → admitted key calls r ≤ greatest 1 r.limit
unfolding admitted
allow-limit key t [] r named h within = omega arith
allow-limit key t ((now, k) ∷ calls) r named h within = elim (Bool-cases (k =? key)) [
  | inl own ↦
      subst (λ x. admitted key ((now, x) ∷ calls) r ≤ greatest 1 r.limit) (sym (=?-eq k key own))
        (after_first key t now calls r named h within)
  | inr other ↦
      let same = allow-KeepsSettings now k r in
      let rest =
        allow-limit key t calls (allow now k r).1 named (allow-elsewhere now key k r other h)
          (subst (λ x. All (λ c. (t ≤ c.0) × (c.0 ≤ t + x)) calls) (sym same.1) within.1) in
      rw (other, admitted) (ground (arith, rest, same.0))
]
