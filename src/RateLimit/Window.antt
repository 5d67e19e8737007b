-- ===== src/RateLimit/Window.antt =====
-- src/service/ratelimit.py: how many requests a window lets through.
use app_generation_microserv.Base.{
  ℕ, ◌+◌, ◌*◌, ◌-◌, ◌≤◌, ◌<◌, String, ◌==◌, ◌≡◌, refl, inl, inr, eq_iff, eq_refl, false, not,
  Option, none, some, List, [], ◌∷◌, leb, ltb, if◌then◌else◌, arith, Bool-cases, second, length,
}
use app_generation_microserv.Base.Dict.{
  Dict, lookup, insert, IsDict, lookup-insert, insert-IsDict, lookup-select, select-IsDict,
}
use app_generation_microserv.RateLimit.{Counter, RateLimiter, current, swept, counted, check_local}

-- a request of a caller, and when it comes
pub record Request : Type 0 where
  pub identity : String
  pub now : ℕ

abbrev pub AllBefore : ℕ → List Request → Type 0
AllBefore end [] = Unit
AllBefore end (r ∷ rs) = (r.now < end) × AllBefore end rs

abbrev allowed : Option ℕ → ℕ
allowed none = 1
allowed (some _) = 0

-- how many of a caller's requests are let through
pub admitted : RateLimiter → String → List Request → Dict Counter → ℕ
admitted l k [] d = 0
admitted l k (r ∷ rs) d =
    let (answer, d') = check_local l r.identity r.now d in
    let rest = admitted l k rs d' in (if r.identity == k then allowed answer else 0) + rest

-- the caller's window
abbrev Open : String → ℕ → ℕ → Dict Counter → Type 0
Open k n end d = IsDict d × (lookup k d ≡ some (record { count = n; resets_at = end }))

swept-Open :
    (k : String) (n end now : ℕ) (d : Dict Counter)
    → now < end
    → Open k n end d
    → Open k n end (swept now d)
unfolding swept
swept-Open k n end now d before (i, o) = elim (Bool-cases (ltb 10000 (length d))) [
  | inr small ↦ rw small (i, o)
  | inl large ↦ rw large (
    select-IsDict (λ _ (w : Counter). not (leb w.resets_at now)) d i,
    rw (lookup-select (λ _ (w : Counter). not (leb w.resets_at now)) k d i, o)
        (ground (arith, before)),
  )
]

check_other-Open :
    (l : RateLimiter) (k j : String) (n end now : ℕ) (d : Dict Counter)
    → now < end
    → (j == k) ≡ false
    → Open k n end d
    → Open k n end (check_local l j now d).1
unfolding check_local
check_other-Open l k j n end now d before other (i, o) =
    let w = counted (current l now (lookup j d)) in
    let kept : Open k n end (insert j w d) =
      (insert-IsDict j w d i, rw (lookup-insert j k w d, other) o) in
    elim (Bool-cases (ltb l.limit w.count)) [
      | inl over ↦ rw over kept
      | inr fine ↦ rw fine (swept-Open k n end now (insert j w d) before kept)
    ]

-- the caller's own request, in a window with `n` requests in it
check_own-Open :
    (l : RateLimiter) (k : String) (n end now : ℕ) (d : Dict Counter)
    → now < end
    → IsDict d
    → current l now (lookup k d) ≡ record { count = n; resets_at = end }
    → Open k (n + 1) end (check_local l k now d).1
      × (allowed (check_local l k now d).0 ≡ (if ltb l.limit (n + 1) then 0 else 1))
unfolding check_local counted
check_own-Open l k n end now d before i c =
    let w : Counter = record { count = n + 1; resets_at = end } in
    let kept : Open k (n + 1) end (insert k w d) =
      (insert-IsDict k w d i, rw (lookup-insert k k w d, eq_refl) refl) in
    rw c (elim (Bool-cases (ltb l.limit (n + 1))) [
      | inl over ↦ rw over (kept, refl)
      | inr fine ↦ rw fine (swept-Open k (n + 1) end now (insert k w d) before kept, refl)
    ])

current-Open :
    (l : RateLimiter) (n end now : ℕ) (o : Option Counter)
    → now < end
    → o ≡ some (record { count = n; resets_at = end })
    → current l now o ≡ record { count = n; resets_at = end }
unfolding current
current-Open l n end now o before e = rw e (ground (arith, before))

admitted-Open :
    (l : RateLimiter) (k : String) (n end : ℕ) (rs : List Request) (d : Dict Counter)
    → AllBefore end rs
    → Open k n end d
    → admitted l k rs d ≤ l.limit - n
unfolding admitted
admitted-Open l k n end [] d b o = omega arith
admitted-Open l k n end (r ∷ rs) d (b, bs) (i, o) = elim (Bool-cases (r.identity == k)) [
  | inr other ↦
      let kept = check_other-Open l k r.identity n end r.now d b other (i, o) in
      ground (arith, other, admitted-Open l k n end rs (check_local l r.identity r.now d).1 bs kept)
  | inl same ↦
      let e : r.identity ≡ k = ground (arith, eq_iff r.identity k, same) in
      rw same (
        step r.identity e r.now
          (check_own-Open l k n end r.now d b i (current-Open l n end r.now (lookup k d) b o))
          (λ d' o'. admitted-Open l k (n + 1) end rs d' bs o'))
]
  where
    step :
        (j : String)
        → j ≡ k
        → (now : ℕ)
        → Open k (n + 1) end (check_local l k now d).1
          × (allowed (check_local l k now d).0 ≡ (if ltb l.limit (n + 1) then 0 else 1))
        → ((d' : Dict Counter) → Open k (n + 1) end d' → admitted l k rs d' ≤ l.limit - (n + 1))
        → allowed (check_local l j now d).0 + admitted l k rs (check_local l j now d).1
          ≤ l.limit - n
    step j e now (opened, answer) ih =
        rw e (ground (arith, answer, ih (check_local l k now d).1 opened))

-- From a moment at which a caller has no window that is still running, the local limiter lets
-- through at most `limit` of its requests until the window that the first one opens is over,
-- whatever other callers do in between.
pub admitted_window :
    (l : RateLimiter) (k : String) (now : ℕ) (rs : List Request) (d : Dict Counter)
    → IsDict d
    → 0 < l.window_seconds
    → current l now (lookup k d) ≡ record { count = 0; resets_at = now + l.window_seconds * second }
    → AllBefore (now + l.window_seconds * second) rs
    → admitted l k (record { identity = k; now = now } ∷ rs) d ≤ l.limit
unfolding admitted
admitted_window l k now rs d i positive fresh bs = rw eq_refl (
    first (
      check_own-Open l k 0 (now + l.window_seconds * second) now d (omega (arith, positive)) i
        fresh))
  where
    first :
        Open k 1 (now + l.window_seconds * second) (check_local l k now d).1
          × (allowed (check_local l k now d).0 ≡ (if ltb l.limit 1 then 0 else 1))
        → allowed (check_local l k now d).0 + admitted l k rs (check_local l k now d).1 ≤ l.limit
    first (opened, answer) = ground (
      arith,
      answer,
      admitted-Open l k 1 (now + l.window_seconds * second) rs (check_local l k now d).1 bs opened,
    )
