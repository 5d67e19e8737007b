-- ===== src/Worker/Kept/Run.antt =====
-- src/service/worker.py: no open job gets lost while the loop runs.
use app_generation_microserv.Base.{
  ℕ, String, ◌≡◌, ◌<◌, ◌+◌, ◌*◌, refl, sym, subst, inl, inr, Bool, true, false, Bool-cases, some,
  List, [], ◌∷◌, arith, second, if◌then◌else◌,
}
use app_generation_microserv.Base.Dict.{insert, insert-IsDict}
use app_generation_microserv.Queue.Memory.{
  Lease, MemoryQueue, reserve, reserve_from, renew, holdings, renewed, step,
}
use app_generation_microserv.Queue.Memory.Conservation.{step-IsValid}
use app_generation_microserv.Queue.Memory.Kept.{taken-kept, taken-held, renew-kept}
use app_generation_microserv.Jobs.{BuildJob, get, save, is_open}
use app_generation_microserv.Worker.{
  Worker, Service, Beat, Next, idle, dropped, start, recover_abandoned, after_reserve, pick,
  concluded, execute, finish, run_next, run_once,
}
use app_generation_microserv.Worker.Result.{renew_held}
use app_generation_microserv.Worker.Loop.{Turn, Loop, is_due, timed_once, run_forever}
use app_generation_microserv.Worker.Kept.{
  IsKept, IsClosed, moved-IsHeld, save-IsKept, ack-IsKept, recover-IsKept, left, saved-IsClosed,
  consider-IsKept,
}

pick-IsKept : (w : Worker) (now : ℕ) (s : Service) → IsKept s → IsKept (left (pick w now s))
unfolding pick reserve reserve_from after_reserve
pick-IsKept w now s (valid, held) = go s.queue.pending refl
  where
    go :
        (ks : List String)
        → s.queue.pending ≡ ks
        → let (job_id, q) = reserve_from w.owner w.lease_seconds now ks s.queue in
          IsKept (left (after_reserve w now job_id (record s { queue = q })))
    go [] e = (valid, held)
    go (j ∷ rest) e =
        let l : Lease = record { owner = w.owner; expires = now + w.lease_seconds * second } in
        let q : MemoryQueue = record { pending = rest; leases = insert j l s.queue.leases } in
        consider-IsKept w now j (get j s.jobs) (record s { queue = q }) refl
          (taken-held j l rest s.queue)
          (
            insert-IsDict j l s.queue.leases valid,
            λ k.
                moved-IsHeld s.queue q k (get k s.jobs) (λ k. taken-kept j k l rest s.queue e)
                  (held k),
          )

renew-IsKept :
    (w : Worker) (j : String) (now : ℕ) (s : Service)
    → IsKept s
    → IsKept (record s { queue = (renew j w.owner w.lease_seconds now s.queue).1 })
unfolding step
renew-IsKept w j now s (valid, held) = (
  step-IsValid (renewed j w.owner w.lease_seconds now) s.queue valid,
  λ k.
      moved-IsHeld s.queue (renew j w.owner w.lease_seconds now s.queue).1 k (get k s.jobs)
        (λ k. renew-kept j w.owner w.lease_seconds now s.queue k) (held k),
)

renewed-held :
    (w : Worker) (j : String) (now : ℕ) (q : MemoryQueue)
    → (renew j w.owner w.lease_seconds now q).0 ≡ true
    → 0 < holdings j (renew j w.owner w.lease_seconds now q).1
renewed-held w j now q h = rw (renew_held j w.owner w.lease_seconds now q h) (omega arith)

-- What others do keeps every open job.
abbrev pub Keeps : (Service → Service) → Type 0
Keeps f = (s : Service) → IsKept s → IsKept (f s)

-- The thread works on the record of this job, and leaves it closed.
abbrev pub AllOwn : String → List Beat → Type 0
AllOwn j [] = Unit
AllOwn j (b ∷ beats) = (Keeps b.others × (b.job.id ≡ j)) × AllOwn j beats

abbrev pub IsLast : String → Beat → Type 0
IsLast j b = Keeps b.others × (b.job.id ≡ j) × (is_open b.job.status ≡ false)

beat-IsKept :
    (w : Worker) (j : String) (now : ℕ) (job : BuildJob) (s : Service)
    → job.id ≡ j
    → (renew j w.owner w.lease_seconds now s.queue).0 ≡ true
    → IsKept s
    → IsKept
        (record { queue = (renew j w.owner w.lease_seconds now s.queue).1; jobs = save job s.jobs })
beat-IsKept w j now job s same held h =
    let q = (renew j w.owner w.lease_seconds now s.queue).1 in
    let one : 0 < holdings job.id q =
      subst (λ k. 0 < holdings k q) (sym same) (renewed-held w j now s.queue held) in
    save-IsKept job q s.jobs (ground (arith, one)) (renew-IsKept w j now s h)

abbrev Ended : String → Bool × Service → Type 0
Ended j (true, s) = IsKept s × IsClosed (get j s.jobs)
Ended j (false, s) = IsKept s

execute-Ended :
    (w : Worker) (j : String) (beats : List Beat) (last : Beat) (s : Service)
    → AllOwn j beats
    → IsLast j last
    → IsKept s
    → Ended j (execute w j beats last s)
unfolding execute concluded
execute-Ended w j [] b s own (keeps, same, closed) h =
    elim (Bool-cases ((renew j w.owner w.lease_seconds b.now (b.others s).queue).0)) [
      | inl held ↦ rw held (
        beat-IsKept w j b.now (concluded b.now b.job) (b.others s) same held (keeps s h),
        saved-IsClosed j (concluded b.now b.job) (b.others s).jobs same closed,
      )
      | inr lost ↦ rw lost (renew-IsKept w j b.now (b.others s) (keeps s h))
    ]
execute-Ended w j (b ∷ beats) last s ((keeps, same), own) ends h =
    elim (Bool-cases ((renew j w.owner w.lease_seconds b.now (b.others s).queue).0)) [
      | inl held ↦ rw held (
          execute-Ended w j beats last _ own ends (
            beat-IsKept w j b.now (record b.job { heartbeat_at = some b.now }) (b.others s) same
              held (keeps s h)))
      | inr lost ↦ rw lost (renew-IsKept w j b.now (b.others s) (keeps s h))
    ]

finish-IsKept : (j : String) (o : Bool × Service) → Ended j o → IsKept (finish j o)
unfolding finish
finish-IsKept j (true, s) (h, closed) = ack-IsKept j s.queue s.jobs closed h
finish-IsKept j (false, s) h = h

-- The beats of a turn belong to the job that it starts.
abbrev pub Belongs : Turn → Next → Type 0
Belongs t (start job s) = AllOwn job.id t.beats × IsLast job.id t.last
Belongs t _ = Unit

run_next-IsKept :
    (w : Worker) (t : Turn) (next : Next)
    → Belongs t next
    → IsKept (left next)
    → IsKept (run_next w t.beats t.last next).1
unfolding run_next
run_next-IsKept w t (idle s) b h = h
run_next-IsKept w t (dropped s) b h = h
run_next-IsKept w t (start job s) (own, ends) h =
    finish-IsKept job.id (execute w job.id t.beats t.last s)
      (execute-Ended w job.id t.beats t.last s own ends h)

-- the service when a turn reserves its job
abbrev pub before : ℕ → Turn → Loop → Service
before recover_every t l =
    if is_due recover_every l.recovered_at t.monotonic
    then (recover_abandoned t.now (t.others l.shared)).1
    else t.others l.shared

before-IsKept :
    (recover_every : ℕ) (t : Turn) (l : Loop)
    → Keeps t.others
    → IsKept l.shared
    → IsKept (before recover_every t l)
before-IsKept recover_every t l keeps h =
    elim (Bool-cases (is_due recover_every l.recovered_at t.monotonic)) [
      | inl due ↦ rw due (recover-IsKept t.now (t.others l.shared) (keeps l.shared h))
      | inr early ↦ rw early (keeps l.shared h)
    ]

-- What the turns of a run bring along: what others do keeps every open job, and the beats of a build
-- are about its own job, which is closed at the last of them.
abbrev pub IsSound : Worker → ℕ → List Turn → Loop → Type 0
IsSound w recover_every [] l = Unit
IsSound w recover_every (t ∷ turns) l =
    (Keeps t.others × Belongs t (pick w t.now (before recover_every t l)))
    × IsSound w recover_every turns (timed_once w recover_every t l).1

-- No open job gets lost: if the queue has a place, pending or leased, for every job whose record is
-- queued or running, it has after any turns of the worker's loop, whatever the loop recovers, drops,
-- gives up, builds or loses the lease of in them. This is provided that what others do in between
-- keeps it, and that a build's thread works on the record of its own job and leaves it succeeded or
-- failed.
pub run_forever-IsKept :
    (w : Worker) (recover_every : ℕ) (turns : List Turn) (l : Loop)
    → IsSound w recover_every turns l
    → IsKept l.shared
    → IsKept (run_forever w recover_every turns l).shared
unfolding run_forever timed_once run_once
run_forever-IsKept w recover_every [] l sound h = h
run_forever-IsKept w recover_every (t ∷ turns) l ((keeps, own), sound) h =
    run_forever-IsKept w recover_every turns (timed_once w recover_every t l).1 sound (
      run_next-IsKept w t (pick w t.now (before recover_every t l)) own
        (pick-IsKept w t.now (before recover_every t l) (before-IsKept recover_every t l keeps h)))
