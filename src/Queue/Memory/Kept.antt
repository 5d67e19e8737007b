-- ===== src/Queue/Memory/Kept.antt =====
-- src/service/queue.py: a job that the queue holds stays in it unless it is acknowledged.
use app_generation_microserv.Base.{
  sym, subst, ℕ, ◌+◌, ◌*◌, ◌≤◌, ◌<◌, String, ◌==◌, ◌≡◌, eq_iff, false, List, ◌∷◌, arith, count,
  count-append, if◌then◌else◌, is_some, second,
}
use app_generation_microserv.Base.Dict.{lookup, lookup-insert, lookup-erase, insert}
use app_generation_microserv.Queue.Memory.{
  Lease, MemoryQueue, renew, ack, requeue_expired, IsValid, holdings,
}
use app_generation_microserv.Queue.Memory.Requeue.{requeue_expired_lem}
use app_generation_microserv.Queue.Memory.Conservation.{requeue_expired-holdings}

-- the first pending job, under a lease
pub taken-kept :
    (j k : String) (l : Lease) (rest : List String) (q : MemoryQueue)
    → q.pending ≡ j ∷ rest
    → 0 < holdings k q
    → 0 < holdings k (record { pending = rest; leases = insert j l q.leases })
taken-kept j k l rest q e h =
    let held : 0 < count k (j ∷ rest) + (if is_some (lookup k q.leases) then 1 else 0) =
      rw e at h in
    ground (arith, eq_iff j k, held, lookup-insert j k l q.leases)

pub taken-held :
    (j : String) (l : Lease) (rest : List String) (q : MemoryQueue)
    → 0 < holdings j (record { pending = rest; leases = insert j l q.leases })
taken-held j l rest q = ground (arith, eq_iff j j, lookup-insert j j l q.leases)

pub renew-kept :
    (j owner : String) (seconds now : ℕ) (q : MemoryQueue) (k : String)
    → 0 < holdings k q
    → 0 < holdings k (renew j owner seconds now q).1
unfolding renew
renew-kept j owner seconds now q k h = ground (
  arith,
  eq_iff j k,
  lookup-insert j k (record { owner = owner; expires = now + seconds * second }) q.leases,
)

pub ack-kept :
    (j : String) (q : MemoryQueue) (k : String)
    → IsValid q
    → (j == k) ≡ false
    → 0 < holdings k q
    → 0 < holdings k (ack j q)
unfolding ack
ack-kept j q k h other held = ground (arith, other, held, lookup-erase j k q.leases h)

pub requeue_expired-kept :
    (moment : ℕ) (q : MemoryQueue) (k : String)
    → IsValid q
    → 0 < holdings k q
    → 0 < holdings k (requeue_expired moment q).1
requeue_expired-kept moment q k h held =
    subst (λ n. 0 < n) (sym (requeue_expired-holdings moment q k h)) held

pub requeue_expired-waits :
    (moment : ℕ) (q : MemoryQueue) (k : String)
    → IsValid q
    → count k (requeue_expired moment q).0 ≤ holdings k (requeue_expired moment q).1
requeue_expired-waits moment q k h =
    let (leases, pending, once) = requeue_expired_lem moment q k h in
    rw pending (rw count-append (omega arith))
