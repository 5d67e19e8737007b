-- ===== src/Queue/Memory/Holder.antt =====
-- src/service/queue.py: who holds a job, over the calls of several workers.
use app_generation_microserv.Base.{
  ℕ, ◌+◌, ◌*◌, ◌≤◌, String, ◌==◌, ◌≡◌, ◌≢◌, refl, eq_iff, Bool, true, false, ◌||◌, not, some, List,
  [], ◌∷◌, arith, leb, ltb, if◌then◌else◌, all, second, count, is_some, Bool-cases, inl, inr,
}
use app_generation_microserv.Base.Dict.{lookup, lookup-insert, lookup-erase}
use app_generation_microserv.Queue.Memory.{
  Lease, MemoryQueue, push, reserve_from, refused, reserve, renew, ack, IsValid, holdings, Event,
  pushed, reserved, renewed, acked, requeued, step, run, spares,
}
use app_generation_microserv.Queue.Memory.Requeue.{requeue_expired_lem}
use app_generation_microserv.Queue.Memory.Conservation.{step-IsValid, step-holdings}

-- `owner` holds the job by a lease that runs at least until `until`.
abbrev pub HeldUntil : ℕ → String → String → MemoryQueue → Type 0
HeldUntil until owner k q =
    (l : Lease) × (lookup k q.leases ≡ some l) × (l.owner ≡ owner) × (until ≤ l.expires)

-- The job is neither pushed again nor acknowledged, no reaper's clock has reached `until`, and no
-- renewal of the job sets an end before `until`.
abbrev pub precedes : ℕ → String → Event → Bool
precedes until k (requeued moment) = ltb moment until
precedes until k (renewed j owner seconds now) = not (j == k) || leb until (now + seconds * second)
precedes until k e = spares k e

reserve_from-lookup :
    (other : String) (seconds now : ℕ) (ks : List String) (q : MemoryQueue) (k : String) (l : Lease)
    → q.pending ≡ ks
    → holdings k q ≡ 1
    → lookup k q.leases ≡ some l
    → lookup k (reserve_from other seconds now ks q).1.leases ≡ some l
unfolding reserve_from
reserve_from-lookup other seconds now [] q k l p one e = e
reserve_from-lookup other seconds now (j ∷ ks) q k l p one e =
    let here : count k (j ∷ ks) + (if is_some (lookup k q.leases) then 1 else 0) ≡ 1 =
      rw p at one in
    ground (
      arith,
      eq_iff j k,
      here,
      lookup-insert j k (record { owner = other; expires = now + seconds * second }) q.leases,
    )

renew-HeldUntil :
    (until : ℕ) (owner k j other : String) (seconds now : ℕ) (q : MemoryQueue)
    → precedes until k (renewed j other seconds now) ≡ true
    → HeldUntil until owner k q
    → HeldUntil until owner k (renew j other seconds now q).1
unfolding renew
renew-HeldUntil until owner k j other seconds now q p (l, e, o, t) =
    elim (Bool-cases (refused (lookup j q.leases) other)) [
      | inl lost ↦ rw lost (l, e, o, t)
      | inr mine ↦ rw mine (elim (Bool-cases (j == k)) [
        | inl same ↦ (
          fresh,
          rw lookup-insert (rw same),
          ground (arith, eq_iff j k, eq_iff l.owner other, e),
          ground arith,
        )
        | inr apart ↦ (l, rw lookup-insert (rw apart e), o, t)
      ])
    ]
  where
    fresh : Lease
    fresh = record { owner = other; expires = now + seconds * second }

step-HeldUntil :
    (until : ℕ) (owner k : String) (e : Event) (q : MemoryQueue)
    → IsValid q
    → holdings k q ≡ 1
    → precedes until k e ≡ true
    → HeldUntil until owner k q
    → HeldUntil until owner k (step e q)
unfolding step push ack
step-HeldUntil until owner k (pushed j) q h one p held = held
step-HeldUntil until owner k (reserved other seconds now) q h one p (l, e, o, t) =
    (l, reserve_from-lookup other seconds now q.pending q k l refl one e, o, t)
step-HeldUntil until owner k (renewed j other seconds now) q h one p held =
    renew-HeldUntil until owner k j other seconds now q p held
step-HeldUntil until owner k (acked j) q h one p (l, e, o, t) =
    (l, rw (lookup-erase j k q.leases h) (ground (arith, eq_iff j k)), o, t)
step-HeldUntil until owner k (requeued moment) q h one p (l, e, o, t) =
    (l, rw ((requeue_expired_lem moment q k h).0, e) (ground arith), o, t)

-- A worker that holds a job by a lease with time left goes on holding it: from a queue that holds
-- the job once, whatever calls any workers make, as long as none pushes or acknowledges the job, no
-- reaper's clock reaches the moment `until`, and no renewal of the job ends before it.
pub run-HeldUntil :
    (until : ℕ) (owner k : String) (es : List Event) (q : MemoryQueue)
    → IsValid q
    → holdings k q ≡ 1
    → all (spares k) es ≡ true
    → all (precedes until k) es ≡ true
    → HeldUntil until owner k q
    → HeldUntil until owner k (run es q)
unfolding run
run-HeldUntil until owner k [] q h one s p held = held
run-HeldUntil until owner k (e ∷ es) q h one s p held =
    run-HeldUntil until owner k es (step e q) (step-IsValid e q h)
      (step-holdings e q k h one (ground (arith, s))) (ground (arith, s)) (ground (arith, p))
      (step-HeldUntil until owner k e q h one (ground (arith, p)) held)

renew-reserve_from :
    (owner other k : String) (s₁ n₁ s₂ n₂ : ℕ) (ks : List String) (q : MemoryQueue)
    → (reserve_from other s₁ n₁ ks q).0 ≡ some k
    → other ≢ owner
    → let q' = (reserve_from other s₁ n₁ ks q).1 in renew k owner s₂ n₂ q' ≡ (false, q')
unfolding reserve_from renew refused
renew-reserve_from owner other k s₁ n₁ s₂ n₂ [] q h ne = cc
renew-reserve_from owner other k s₁ n₁ s₂ n₂ (j ∷ ks) q h ne = ground (
  arith,
  eq_iff j k,
  eq_iff other owner,
  lookup-insert j k (record { owner = other; expires = n₁ + s₁ * second }) q.leases,
)

-- Once another worker has reserved a job, a worker that still runs it is refused the renewal by
-- which it would keep it, whatever the clocks and lease lengths, and its call changes nothing.
pub renew-reserve :
    (owner other k : String) (s₁ n₁ s₂ n₂ : ℕ) (q : MemoryQueue)
    → (reserve other s₁ n₁ q).0 ≡ some k
    → other ≢ owner
    → let q' = (reserve other s₁ n₁ q).1 in renew k owner s₂ n₂ q' ≡ (false, q')
unfolding reserve
renew-reserve owner other k s₁ n₁ s₂ n₂ q = renew-reserve_from owner other k s₁ n₁ s₂ n₂ q.pending q
