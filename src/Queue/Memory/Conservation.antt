-- ===== src/Queue/Memory/Conservation.antt =====
-- src/service/queue.py: the number of places that hold a job, call by call.
use app_generation_microserv.Base.{
  refl, ◌∙◌, ℕ, ◌+◌, ◌*◌, String, ◌≡◌, eq_iff, true, Option, none, some, List, [], ◌∷◌, arith,
  count, count-append, if◌then◌else◌, is_some, all, Bool-cases, inl, inr, second,
}
use app_generation_microserv.Base.Dict.{
  lookup, lookup-insert, insert-IsDict, lookup-erase, erase-IsDict, when,
}
use app_generation_microserv.Queue.Memory.{
  Lease, MemoryQueue, push, reserve_from, refused, renew, ack, requeue_expired, IsValid, holdings,
  Event, pushed, reserved, renewed, acked, requeued, step, run, spares,
}
use app_generation_microserv.Queue.Memory.Requeue.{
  live, lapses, requeue_expired_lem, requeue_expired-IsValid,
}

reserve_from-IsValid :
    (owner : String) (seconds now : ℕ) (ks : List String) (q : MemoryQueue)
    → IsValid q
    → IsValid (reserve_from owner seconds now ks q).1
unfolding reserve_from
reserve_from-IsValid owner seconds now [] q h = h
reserve_from-IsValid owner seconds now (k ∷ ks) q h = insert-IsDict k _ q.leases h

renew-IsValid :
    (k owner : String) (seconds now : ℕ) (q : MemoryQueue)
    → IsValid q
    → IsValid (renew k owner seconds now q).1
unfolding renew
renew-IsValid k owner seconds now q h = elim (Bool-cases (refused (lookup k q.leases) owner)) [
  | inl lost ↦ rw lost h
  | inr held ↦ rw held (insert-IsDict k _ q.leases h)
]

pub step-IsValid : (e : Event) (q : MemoryQueue) → IsValid q → IsValid (step e q)
unfolding step
step-IsValid (pushed k) q h = h
step-IsValid (reserved owner seconds now) q h = reserve_from-IsValid owner seconds now q.pending q h
step-IsValid (renewed k owner seconds now) q h = renew-IsValid k owner seconds now q h
step-IsValid (acked k) q h = erase-IsDict k q.leases h
step-IsValid (requeued moment) q h = requeue_expired-IsValid moment q h

-- A reaper moves jobs and neither adds nor drops one.
pub requeue_expired-holdings :
    (moment : ℕ) (q : MemoryQueue) (k : String)
    → IsValid q
    → holdings k (requeue_expired moment q).1 ≡ holdings k q
requeue_expired-holdings moment q k h =
    let (leases, pending, once) = requeue_expired_lem moment q k h in
    rw (leases, pending, count-append, once) (split (lookup k q.leases))
  where
    split :
        (o : Option Lease)
        → (count k q.pending + lapses moment o)
            + (if is_some (when (live moment) k o) then 1 else 0)
          ≡ count k q.pending + (if is_some o then 1 else 0)
    split none = ground arith
    split (some l) = ground arith

reserve_from-holdings :
    (owner : String) (seconds now : ℕ) (ks : List String) (q : MemoryQueue) (k : String)
    → q.pending ≡ ks
    → holdings k q ≡ 1
    → holdings k (reserve_from owner seconds now ks q).1 ≡ 1
unfolding reserve_from
reserve_from-holdings owner seconds now [] q k e h = h
reserve_from-holdings owner seconds now (j ∷ ks) q k e h =
    let one : count k (j ∷ ks) + (if is_some (lookup k q.leases) then 1 else 0) ≡ 1 = rw e at h in
    ground (
      arith,
      eq_iff j k,
      one,
      lookup-insert j k (record { owner = owner; expires = now + seconds * second }) q.leases,
    )

renew-holdings :
    (j owner : String) (seconds now : ℕ) (q : MemoryQueue) (k : String)
    → holdings k q ≡ 1
    → holdings k (renew j owner seconds now q).1 ≡ 1
unfolding renew
renew-holdings j owner seconds now q k h = ground (
  arith,
  eq_iff j k,
  lookup-insert j k (record { owner = owner; expires = now + seconds * second }) q.leases,
)

pub step-holdings :
    (e : Event) (q : MemoryQueue) (k : String)
    → IsValid q
    → holdings k q ≡ 1
    → spares k e ≡ true
    → holdings k (step e q) ≡ 1
unfolding step push ack
step-holdings (pushed j) q k h one s = ground (arith, eq_iff j k, count-append k q.pending (j ∷ []))
step-holdings (reserved owner seconds now) q k h one s =
    reserve_from-holdings owner seconds now q.pending q k refl one
step-holdings (renewed j owner seconds now) q k h one s = renew-holdings j owner seconds now q k one
step-holdings (acked j) q k h one s = ground (arith, eq_iff j k, lookup-erase j k q.leases h)
step-holdings (requeued moment) q k h one s = requeue_expired-holdings moment q k h ∙ one

-- A job that the queue holds once, pending or leased, is still held once after any calls by any
-- workers, whatever leases run out between them, that neither push nor acknowledge that job.
pub run-holdings :
    (es : List Event) (q : MemoryQueue) (k : String)
    → IsValid q
    → holdings k q ≡ 1
    → all (spares k) es ≡ true
    → holdings k (run es q) ≡ 1
unfolding run
run-holdings [] q k h one spared = one
run-holdings (e ∷ es) q k h one spared =
    run-holdings es (step e q) k (step-IsValid e q h)
      (step-holdings e q k h one (ground (arith, spared))) (ground (arith, spared))
