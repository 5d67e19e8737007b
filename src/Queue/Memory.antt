-- ===== src/Queue/Memory.antt =====
-- src/service/queue.py: `InMemoryBuildQueue`. Each method runs under the queue's lock, so it is one
-- step: it takes the queue and the time and returns the new queue beside its result.
pub mod Requeue
pub mod Conservation
pub mod Holder
pub mod Kept
pub mod Custody
use app_generation_microserv.Base.{
  ℕ, ◌+◌, ◌*◌, String, ◌==◌, Bool, true, false, not, ◌||◌, Option, none, some, List, [], ◌∷◌, ◌++◌,
  leb, if◌then◌else◌, is_some, length, count, second,
}
use app_generation_microserv.Base.Dict.{Dict, lookup, insert, erase, IsDict}

-- DEFAULT_LEASE_SECONDS
abbrev pub default_lease_seconds : ℕ
default_lease_seconds = 300

-- The pair (owner, expiry) that `_leases` holds for a job.
pub record Lease : Type 0 where
  pub owner : String
  pub expires : ℕ

pub record MemoryQueue : Type 0 where
  pub pending : List String
  pub leases : Dict Lease

-- `__init__`
abbrev pub empty : MemoryQueue
empty = record { pending = []; leases = [] }

unfoldable pub push : String → MemoryQueue → MemoryQueue
push job_id q = record q { pending = q.pending ++ job_id ∷ [] }

-- `popleft`, and the lease on what it returned
unfoldable pub reserve_from :
    String → ℕ → ℕ → List String → MemoryQueue → Option String × MemoryQueue
reserve_from owner lease_seconds now [] q = (none, q)
reserve_from owner lease_seconds now (job_id ∷ rest) q = (
  some job_id,
  record {
    pending = rest;
    leases =
        insert job_id (record { owner = owner; expires = now + lease_seconds * second }) q.leases;
  },
)

unfoldable pub reserve : String → ℕ → ℕ → MemoryQueue → Option String × MemoryQueue
unfolding reserve_from
reserve owner lease_seconds now q = reserve_from owner lease_seconds now q.pending q

-- `held is None or held[0] != owner`
unfoldable pub refused : Option Lease → String → Bool
refused none owner = true
refused (some held) owner = not (held.owner == owner)

unfoldable pub renew : String → String → ℕ → ℕ → MemoryQueue → Bool × MemoryQueue
unfolding refused
renew job_id owner lease_seconds now q =
    if refused (lookup job_id q.leases) owner then (false, q) else (
      true,
      record q {
        leases =
            insert job_id (record { owner = owner; expires = now + lease_seconds * second })
              q.leases;
      },
    )

unfoldable pub ack : String → MemoryQueue → MemoryQueue
ack job_id q = record q { leases = erase job_id q.leases }

-- `[j for j, (_, exp) in self._leases.items() if exp <= moment]`
unfoldable pub lapsed_at : ℕ → Dict Lease → List String
lapsed_at moment [] = []
lapsed_at moment ((j, l) ∷ d) =
    let rest = lapsed_at moment d in if leb l.expires moment then j ∷ rest else rest

-- `for job_id in lapsed: del self._leases[job_id]; self._pending.append(job_id)`
unfoldable pub put_back : List String → MemoryQueue → MemoryQueue
put_back [] q = q
put_back (job_id ∷ lapsed) q =
    put_back lapsed (record { pending = q.pending ++ job_id ∷ []; leases = erase job_id q.leases })

unfoldable pub requeue_expired : ℕ → MemoryQueue → List String × MemoryQueue
unfolding lapsed_at put_back
requeue_expired moment q = let lapsed = lapsed_at moment q.leases in (lapsed, put_back lapsed q)

unfoldable pub depth : MemoryQueue → ℕ
depth q = length q.pending

-- The dict of leases has each job once.
abbrev pub IsValid : MemoryQueue → Type 0
IsValid q = IsDict q.leases

-- How many places hold a job: its entries in the pending list, and its lease.
abbrev pub holdings : String → MemoryQueue → ℕ
holdings k q = count k q.pending + (if is_some (lookup k q.leases) then 1 else 0)

-- One call by some worker or by the accepting process, with the time at which it runs.
pub data Event : Type 0 where
  pushed : String → Event
  reserved : String → ℕ → ℕ → Event
  renewed : String → String → ℕ → ℕ → Event
  acked : String → Event
  requeued : ℕ → Event

unfoldable pub step : Event → MemoryQueue → MemoryQueue
unfolding push reserve renew ack requeue_expired
step (pushed k) q = push k q
step (reserved owner seconds now) q = (reserve owner seconds now q).1
step (renewed k owner seconds now) q = (renew k owner seconds now q).1
step (acked k) q = ack k q
step (requeued moment) q = (requeue_expired moment q).1

unfoldable pub run : List Event → MemoryQueue → MemoryQueue
run [] q = q
run (e ∷ es) q = run es (step e q)

-- The event neither adds the job nor finishes it.
abbrev pub spares : String → Event → Bool
spares k (pushed j) = not (j == k)
spares k (acked j) = not (j == k)
spares k _ = true
