-- ===== src/Worker/Kept.antt =====
-- src/service/worker.py: no open job gets lost between the queue and the store.
pub mod Run
use app_generation_microserv.Base.{
  ℕ, String, ◌==◌, ◌≡◌, ◌≤◌, ◌<◌, refl, sym, ap, subst, ◌∙◌, inl, inr, eq_iff, eq_refl, Bool, true,
  false, Bool-cases, Option, none, some, List, [], ◌∷◌, arith, ltb, count, if◌then◌else◌,
}
use app_generation_microserv.Base.Dict.{lookup, lookup-insert, insert}
use app_generation_microserv.Queue.Memory.{
  Lease, MemoryQueue, ack, requeue_expired, IsValid, holdings, acked, requeued, step,
}
use app_generation_microserv.Queue.Memory.Conservation.{step-IsValid}
use app_generation_microserv.Queue.Memory.Kept.{
  ack-kept, requeue_expired-kept, requeue_expired-waits,
}
use app_generation_microserv.Jobs.{BuildJob, JobStore, get, save, is_open}
use app_generation_microserv.Worker.{
  Worker, Service, Next, idle, dropped, start, tell, tell_all, requeued_job, recover_abandoned,
  given_up, attempted, begun, attempt, consider,
}

-- A record stands under its own id, and while it is open, the queue holds that id.
abbrev pub IsHeld : MemoryQueue → String → Option BuildJob → Type 0
IsHeld q k none = Unit
IsHeld q k (some job) = (job.id ≡ k) × ((if is_open job.status then 1 else 0) ≤ holdings k q)

abbrev pub IsKept : Service → Type 0
IsKept s = IsValid s.queue × ((k : String) → IsHeld s.queue k (get k s.jobs))

abbrev pub IsClosed : Option BuildJob → Type 0
IsClosed none = Unit
IsClosed (some job) = is_open job.status ≡ false

-- the queue moves, and goes on holding what it holds
pub moved-IsHeld :
    (q q' : MemoryQueue) (k : String) (o : Option BuildJob)
    → ((k : String) → 0 < holdings k q → 0 < holdings k q')
    → IsHeld q k o
    → IsHeld q' k o
moved-IsHeld q q' k none kept h = tt
moved-IsHeld q q' k (some job) kept (same, held) = elim (Bool-cases (is_open job.status)) [
  | inl open_ ↦
      (same, rw open_ (let one : 0 < holdings k q = ground (arith, open_, held) in kept k one))
  | inr closed ↦ (same, rw closed (omega arith))
]

pub save-IsKept :
    (job : BuildJob) (q : MemoryQueue) (jobs : JobStore)
    → (if is_open job.status then 1 else 0) ≤ holdings job.id q
    → IsKept (record { queue = q; jobs = jobs })
    → IsKept (record { queue = q; jobs = save job jobs })
unfolding get save
save-IsKept job q jobs fits (valid, held) = (
  valid,
  λ k. elim (Bool-cases (job.id == k)) [
    | inl this ↦
        (let same : job.id ≡ k = (eq_iff job.id k).0 this in
          rw (lookup-insert job.id k job jobs, this)
            (same, subst (λ i. (if is_open job.status then 1 else 0) ≤ holdings i q) same fits))
    | inr other ↦ rw (lookup-insert job.id k job jobs, other) (held k)
  ],
)

-- A job that is closed, or has no record, may be acknowledged.
pub ack-IsKept :
    (j : String) (q : MemoryQueue) (jobs : JobStore)
    → IsClosed (get j jobs)
    → IsKept (record { queue = q; jobs = jobs })
    → IsKept (record { queue = ack j q; jobs = jobs })
unfolding step
ack-IsKept j q jobs closed (valid, held) = (step-IsValid (acked j) q valid, λ k. go k (held k))
  where
    own : (o : Option BuildJob) → IsClosed o → IsHeld q j o → IsHeld (ack j q) j o
    own none c h = tt
    own (some job) c (same, h) = (same, rw c (omega arith))

    other :
        (k : String) (o : Option BuildJob) → (j == k) ≡ false → IsHeld q k o → IsHeld (ack j q) k o
    other k none e h = tt
    other k (some job) e (same, h) = elim (Bool-cases (is_open job.status)) [
      | inl open_ ↦ (
        same,
        rw open_
            (let one : 0 < holdings k q = ground (arith, open_, h) in ack-kept j q k valid e one),
      )
      | inr done ↦ (same, rw done (omega arith))
    ]

    go : (k : String) → IsHeld q k (get k jobs) → IsHeld (ack j q) k (get k jobs)
    go k h = elim (Bool-cases (j == k)) [
      | inl this ↦
          subst (λ i. IsHeld q i (get i jobs) → IsHeld (ack j q) i (get i jobs))
            ((eq_iff j k).0 this) (own (get j jobs) closed) h
      | inr differs ↦ other k (get k jobs) differs h
    ]

tell_all-IsKept :
    (now : ℕ) (ids : List String) (q : MemoryQueue) (jobs : JobStore)
    → ((k : String) → count k ids ≤ holdings k q)
    → IsKept (record { queue = q; jobs = jobs })
    → IsKept (record { queue = q; jobs = tell_all now ids jobs })
unfolding tell_all tell requeued_job
tell_all-IsKept now [] q jobs waits h = h
tell_all-IsKept now (i ∷ ids) q jobs waits (valid, held) =
    tell_all-IsKept now ids q (tell now (get i jobs) jobs)
      (λ k. (let all_ = waits k in ground (arith, all_))) (told (get i jobs) (held i))
  where
    told :
        (o : Option BuildJob) → IsHeld q i o → IsKept (record { queue = q; jobs = tell now o jobs })
    told none h = (valid, held)
    told (some job) (same, h) =
        save-IsKept (requeued_job now job) q jobs
          (subst (λ k. 1 ≤ holdings k q) (sym same)
            (let all_ = waits i in ground (arith, all_, eq_iff i i)))
          (valid, held)

pub recover-IsKept : (now : ℕ) (s : Service) → IsKept s → IsKept (recover_abandoned now s).1
unfolding recover_abandoned step
recover-IsKept now s (valid, held) =
    tell_all-IsKept now (requeue_expired now s.queue).0 (requeue_expired now s.queue).1 s.jobs
      (λ k. requeue_expired-waits now s.queue k valid)
      (
        step-IsValid (requeued now) s.queue valid,
        λ k.
            moved-IsHeld s.queue (requeue_expired now s.queue).1 k (get k s.jobs)
              (λ k. requeue_expired-kept now s.queue k valid) (held k),
      )

-- the service that a choice of the worker leaves
abbrev pub left : Next → Service
left (idle s) = s
left (dropped s) = s
left (start job s) = s

pub saved-IsClosed :
    (j : String) (job : BuildJob) (jobs : JobStore)
    → job.id ≡ j
    → is_open job.status ≡ false
    → IsClosed (get j (save job jobs))
unfolding get save
saved-IsClosed j job jobs same closed =
    rw (lookup-insert job.id j job jobs, (eq_iff job.id j).1 same) closed

attempt-IsKept :
    (w : Worker) (now : ℕ) (j : String) (job : BuildJob) (s : Service)
    → job.id ≡ j
    → 0 < holdings j s.queue
    → IsKept s
    → IsKept (left (attempt w now j job s))
unfolding attempt given_up begun
attempt-IsKept w now j job s same reserved h = elim (Bool-cases (ltb w.max_attempts job.attempts)) [
  | inl over ↦ rw over (
      ack-IsKept j s.queue (save (given_up w now job) s.jobs)
        (saved-IsClosed j (given_up w now job) s.jobs same refl)
        (save-IsKept (given_up w now job) s.queue s.jobs (omega arith) h))
  | inr allowed ↦ rw allowed (
      save-IsKept (begun now job) s.queue s.jobs
        (subst (λ k. 0 < holdings k s.queue) (sym same) reserved) h)
]

pub consider-IsKept :
    (w : Worker) (now : ℕ) (j : String) (o : Option BuildJob) (s : Service)
    → get j s.jobs ≡ o
    → 0 < holdings j s.queue
    → IsKept s
    → IsKept (left (consider w now j o s))
unfolding consider attempted
consider-IsKept w now j none s e reserved h =
    ack-IsKept j s.queue s.jobs (subst IsClosed (sym e) tt) h
consider-IsKept w now j (some job) s e reserved h = elim (Bool-cases (is_open job.status)) [
  | inl open_ ↦
      (let found : IsHeld s.queue j (some job) = subst (IsHeld s.queue j) e (h.1 j) in
        rw open_ (attempt-IsKept w now j (attempted job) s found.0 reserved h))
  | inr closed ↦ rw closed (ack-IsKept j s.queue s.jobs (subst IsClosed (sym e) closed) h)
]
