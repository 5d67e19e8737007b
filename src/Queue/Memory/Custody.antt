-- ===== src/Queue/Memory/Custody.antt =====
-- src/service/queue.py: what the queue promises for one job, without lists and dicts: nobody has it,
-- it waits, or a worker holds it under a lease. `custody` is the abstraction of a queue, `Moves` the
-- promise for each call.
pub mod Places
pub mod Refinement
use app_generation_microserv.Base.{
  ℕ, zero, suc, ◌+◌, ◌*◌, ◌≤◌, String, ◌==◌, ◌≡◌, refl, sym, ap, subst, ◌∙◌, ◌⊎◌, inl, inr, Bool,
  true, false, ◌&&◌, Option, none, some, List, [], ◌∷◌, arith, count, count-append, if◌then◌else◌,
  is_some, Bool-cases, leb, second, eq_iff,
}
use app_generation_microserv.Base.Dict.{lookup, lookup-insert, lookup-erase, when}
use app_generation_microserv.Queue.Memory.{
  Lease, MemoryQueue, push, reserve_from, reserve, refused, renew, ack, requeue_expired, IsValid,
  holdings, Event, pushed, reserved, renewed, acked, requeued, step, run,
}
use app_generation_microserv.Queue.Memory.Requeue.{live, lapses, requeue_expired_lem}
use app_generation_microserv.Queue.Memory.Conservation.{step-IsValid, requeue_expired-holdings}

pub data Custody : Type 0 where
  absent : Custody
  waiting : Custody
  held : Lease → Custody

abbrev pub custody_of : ℕ → Option Lease → Custody
custody_of n (some l) = held l
custody_of zero none = absent
custody_of (suc n) none = waiting

abbrev pub custody : String → MemoryQueue → Custody
custody k q = custody_of (count k q.pending) (lookup k q.leases)

abbrev pub lease : String → ℕ → ℕ → Lease
lease owner seconds now = record { owner = owner; expires = now + seconds * second }

-- What a call may do to the custody of a job. Only `reserve` has a choice, which the order of the
-- other jobs decides.
abbrev pub Moves : String → Event → Custody → Custody → Type 0
Moves k (pushed j) c c' = c' ≡ (if j == k then waiting else c)
Moves k (reserved owner seconds now) waiting c' =
    (c' ≡ waiting) ⊎ (c' ≡ held (lease owner seconds now))
Moves k (renewed j owner seconds now) (held l) c' =
    c' ≡ (if j == k && l.owner == owner then held (lease owner seconds now) else held l)
Moves k (acked j) (held l) c' = c' ≡ (if j == k then absent else held l)
Moves k (requeued moment) (held l) c' = c' ≡ (if leb l.expires moment then waiting else held l)
Moves k e c c' = c' ≡ c

-- the moves of a sequence of calls
abbrev pub Follows : String → List Event → Custody → Custody → Type 0
Follows k [] c c' = c' ≡ c
Follows k (e ∷ es) c c' = (next : Custody) × Moves k e c next × Follows k es next c'

abbrev pub pushes_of : String → Event → ℕ
pushes_of k (pushed j) = if j == k then 1 else 0
pushes_of k _ = 0

abbrev pub pushes : String → List Event → ℕ
pushes k [] = 0
pushes k (e ∷ es) = pushes_of k e + pushes k es
