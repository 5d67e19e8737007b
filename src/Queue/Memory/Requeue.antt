-- ===== src/Queue/Memory/Requeue.antt =====
-- src/service/queue.py: what `requeue_expired` does to the pending list and to the leases.
use app_generation_microserv.Base.{
  ℕ, String, ◌≡◌, refl, eq_iff, Bool, not, none, some, List, [], ◌∷◌, ◌++◌, append-nil,
  append_assoc, arith, leb, if◌then◌else◌, count, Option,
}
use app_generation_microserv.Base.Dict.{
  Dict, lookup, erase, select, when, IsDict, lookup-select, select-IsDict,
}
use app_generation_microserv.Queue.Memory.{
  Lease, MemoryQueue, lapsed_at, put_back, requeue_expired, IsValid,
}

abbrev pub live : ℕ → String → Lease → Bool
live moment _ l = not (leb l.expires moment)

abbrev erase_all : List String → Dict Lease → Dict Lease
erase_all [] d = d
erase_all (k ∷ ks) d = erase_all ks (erase k d)

pub pending-put_back :
    (ks : List String) (q : MemoryQueue) → (put_back ks q).pending ≡ q.pending ++ ks
unfolding put_back
pending-put_back [] q = rw append-nil
pending-put_back (k ∷ ks) q = rw (pending-put_back ks, append_assoc)

leases-put_back :
    (ks : List String) (q : MemoryQueue) → (put_back ks q).leases ≡ erase_all ks q.leases
unfolding put_back
leases-put_back [] q = refl
leases-put_back (k ∷ ks) q = leases-put_back ks _

-- A job that no lease names is not among the lapsed ones.
erase_all-skip :
    (moment : ℕ) (k : String) (l : Lease) (d e : Dict Lease)
    → lookup k d ≡ none
    → erase_all (lapsed_at moment d) ((k, l) ∷ e) ≡ (k, l) ∷ erase_all (lapsed_at moment d) e
unfolding lapsed_at
erase_all-skip moment k l [] e h = refl
erase_all-skip moment k l ((j, m) ∷ d) e h = ground (
  arith,
  eq_iff j k,
  eq_iff k j,
  erase_all-skip moment k l d e,
  erase_all-skip moment k l d (erase j e),
)

erase_all-lapsed_at :
    (moment : ℕ) (d : Dict Lease)
    → IsDict d
    → erase_all (lapsed_at moment d) d ≡ select (live moment) d
unfolding lapsed_at
erase_all-lapsed_at moment [] h = refl
erase_all-lapsed_at moment ((j, m) ∷ d) h =
    ground (arith, eq_iff j j, erase_all-skip moment j m d d, erase_all-lapsed_at moment d)

-- A lapsed job stands in the list once, any other not at all.
abbrev pub lapses : ℕ → Option Lease → ℕ
lapses moment none = 0
lapses moment (some l) = if leb l.expires moment then 1 else 0

pub count-lapsed_at :
    (moment : ℕ) (k : String) (d : Dict Lease)
    → IsDict d
    → count k (lapsed_at moment d) ≡ lapses moment (lookup k d)
unfolding lapsed_at
count-lapsed_at moment k [] h = refl
count-lapsed_at moment k ((j, m) ∷ d) h = ground (arith, eq_iff j k, count-lapsed_at moment k d)

-- From a queue whose leases name each job once: exactly the leases that have run out by the given
-- moment are dropped, every other stays as it was, the jobs of the dropped ones go to the end of
-- the pending list, each once, and the call returns those jobs.
pub requeue_expired_lem :
    (moment : ℕ) (q : MemoryQueue) (k : String)
    → IsValid q
    → let (requeued, q') = requeue_expired moment q in
      (lookup k q'.leases ≡ when (live moment) k (lookup k q.leases))
      × (q'.pending ≡ q.pending ++ requeued)
      × (count k requeued ≡ lapses moment (lookup k q.leases))
unfolding requeue_expired
requeue_expired_lem moment q k h = (
  rw (leases-put_back (lapsed_at moment q.leases) q, erase_all-lapsed_at moment q.leases h)
      (lookup-select (live moment) k q.leases h),
  pending-put_back (lapsed_at moment q.leases) q,
  count-lapsed_at moment k q.leases h,
)

pub requeue_expired-IsValid :
    (moment : ℕ) (q : MemoryQueue) → IsValid q → IsValid (requeue_expired moment q).1
unfolding requeue_expired
requeue_expired-IsValid moment q h =
    rw (leases-put_back (lapsed_at moment q.leases) q, erase_all-lapsed_at moment q.leases h)
      (select-IsDict (live moment) q.leases h)
