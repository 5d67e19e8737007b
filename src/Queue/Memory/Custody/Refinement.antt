-- ===== src/Queue/Memory/Custody/Refinement.antt =====
-- src/service/queue.py: the in-memory queue keeps the promise for every job.
use app_generation_microserv.Base.{
  ℕ, ◌+◌, ◌≤◌, String, ◌==◌, ◌≡◌, refl, sym, ap, ◌∙◌, inl, inr, true, false, List, [], ◌∷◌, arith,
  count, count-append, if◌then◌else◌, Bool-cases, eq_iff,
}
use app_generation_microserv.Base.Dict.{lookup, lookup-insert, lookup-erase}
use app_generation_microserv.Queue.Memory.{
  MemoryQueue, push, reserve_from, reserve, refused, renew, ack, requeue_expired, IsValid, holdings,
  Event, pushed, reserved, renewed, acked, requeued, step, run,
}
use app_generation_microserv.Queue.Memory.Requeue.{requeue_expired_lem}
use app_generation_microserv.Queue.Memory.Conservation.{step-IsValid, requeue_expired-holdings}
use app_generation_microserv.Queue.Memory.Custody.{
  custody, lease, Moves, Follows, pushes_of, pushes,
}
use app_generation_microserv.Queue.Memory.Custody.Places.{
  pushed_places, reserved_idle, reserved_places, renewed_places, acked_places, requeued_places,
}

push-Moves :
    (j k : String) (q : MemoryQueue)
    → holdings k q + (if j == k then 1 else 0) ≤ 1
    → Moves k (pushed j) (custody k q) (custody k (push j q))
unfolding push
push-Moves j k q h =
    rw (count-append k q.pending (j ∷ []))
      (pushed_places (j == k) (count k q.pending) (lookup k q.leases) h)

reserve-Moves :
    (owner : String) (seconds now : ℕ) (ks : List String) (k : String) (q : MemoryQueue)
    → q.pending ≡ ks
    → holdings k q ≤ 1
    → Moves k
        (reserved owner seconds now)
        (custody k q)
        (custody k (reserve_from owner seconds now ks q).1)
unfolding reserve_from
reserve-Moves owner seconds now [] k q e h = reserved_idle k owner seconds now (custody k q)
reserve-Moves owner seconds now (j ∷ ks) k q e h =
    rw (e, lookup-insert j k (lease owner seconds now) q.leases)
      (reserved_places k owner seconds now (j == k) (count k ks) (lookup k q.leases) (rw e at h))

refused-same :
    (j k owner : String) (q : MemoryQueue)
    → (j == k) ≡ true
    → refused (lookup k q.leases) owner ≡ refused (lookup j q.leases) owner
refused-same j k owner q t = ap (λ i. refused (lookup i q.leases) owner) (sym ((eq_iff j k).0 t))

renew-Moves :
    (j owner : String) (seconds now : ℕ) (k : String) (q : MemoryQueue)
    → Moves k
        (renewed j owner seconds now)
        (custody k q)
        (custody k (renew j owner seconds now q).1)
unfolding renew refused
renew-Moves j owner seconds now k q = elim (Bool-cases (refused (lookup j q.leases) owner)) [
  | inl lost ↦ rw lost (
      renewed_places j k owner seconds now (j == k) true (count k q.pending) (lookup k q.leases)
        refl (λ t. refused-same j k owner q t ∙ lost))
  | inr kept ↦
      rw (kept, lookup-insert j k (lease owner seconds now) q.leases)
        (renewed_places j k owner seconds now (j == k) false (count k q.pending) (lookup k q.leases)
          refl (λ t. refused-same j k owner q t ∙ kept))
]

ack-Moves :
    (j k : String) (q : MemoryQueue)
    → IsValid q
    → holdings k q ≤ 1
    → Moves k (acked j) (custody k q) (custody k (ack j q))
unfolding ack
ack-Moves j k q v h =
    rw (lookup-erase j k q.leases v)
      (acked_places j k (j == k) (count k q.pending) (lookup k q.leases) refl h)

requeue-Moves :
    (moment : ℕ) (k : String) (q : MemoryQueue)
    → IsValid q
    → Moves k (requeued moment) (custody k q) (custody k (requeue_expired moment q).1)
requeue-Moves moment k q v =
    let (leases, pending, once) = requeue_expired_lem moment q k v in
    rw (leases, pending, count-append, once)
      (requeued_places moment k (count k q.pending) (lookup k q.leases))

step-Moves :
    (e : Event) (k : String) (q : MemoryQueue)
    → IsValid q
    → holdings k q + pushes_of k e ≤ 1
    → Moves k e (custody k q) (custody k (step e q))
unfolding step reserve
step-Moves (pushed j) k q v h = push-Moves j k q h
step-Moves (reserved owner seconds now) k q v h =
    reserve-Moves owner seconds now q.pending k q refl (omega (arith, h))
step-Moves (renewed j owner seconds now) k q v h = renew-Moves j owner seconds now k q
step-Moves (acked j) k q v h = ack-Moves j k q v (omega (arith, h))
step-Moves (requeued moment) k q v h = requeue-Moves moment k q v

reserve_from-bound :
    (owner : String) (seconds now : ℕ) (ks : List String) (q : MemoryQueue) (k : String)
    → q.pending ≡ ks
    → holdings k (reserve_from owner seconds now ks q).1 ≤ holdings k q
unfolding reserve_from
reserve_from-bound owner seconds now [] q k e = omega arith
reserve_from-bound owner seconds now (j ∷ ks) q k e =
    let e' : count k q.pending ≡ count k (j ∷ ks) = ap (count k) e in
    ground (arith, eq_iff j k, e', lookup-insert j k (lease owner seconds now) q.leases)

renew-bound :
    (j owner : String) (seconds now : ℕ) (q : MemoryQueue) (k : String)
    → holdings k (renew j owner seconds now q).1 ≤ holdings k q
unfolding renew refused
renew-bound j owner seconds now q k = ground (
  arith,
  eq_iff j k,
  refused-same j k owner q,
  lookup-insert j k (lease owner seconds now) q.leases,
)

-- a call adds at most what it pushes
step-bound :
    (e : Event) (k : String) (q : MemoryQueue)
    → IsValid q
    → holdings k (step e q) ≤ holdings k q + pushes_of k e
unfolding step reserve push ack
step-bound (pushed j) k q v = ground (arith, count-append k q.pending (j ∷ []))
step-bound (reserved owner seconds now) k q v =
    omega (arith, reserve_from-bound owner seconds now q.pending q k refl)
step-bound (renewed j owner seconds now) k q v = omega (arith, renew-bound j owner seconds now q k)
step-bound (acked j) k q v = ground (arith, eq_iff j k, lookup-erase j k q.leases v)
step-bound (requeued moment) k q v = omega (arith, requeue_expired-holdings moment q k v)

-- Any sequence of calls, by any workers and at any times, moves a job the way the promise says,
-- call by call, if the queue holds the job at most once and it is not pushed beyond that.
pub run-Follows :
    (es : List Event) (k : String) (q : MemoryQueue)
    → IsValid q
    → holdings k q + pushes k es ≤ 1
    → Follows k es (custody k q) (custody k (run es q))
unfolding run
run-Follows [] k q v h = refl
run-Follows (e ∷ es) k q v h = (
  custody k (step e q),
  step-Moves e k q v (omega (arith, h)),
  run-Follows es k (step e q) (step-IsValid e q v) (omega (arith, h, step-bound e k q v)),
)
