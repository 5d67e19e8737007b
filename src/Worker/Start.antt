-- ===== src/Worker/Start.antt =====
-- src/service/worker.py: which builds a worker starts.
use app_generation_microserv.Base.{
  ℕ, ◌+◌, ◌≤◌, String, ◌≡◌, refl, ap, sym, subst, ◌∙◌, inl, inr, true, Option, none, some, ltb,
  arith, Bool-cases,
}
use app_generation_microserv.Queue.Memory.{MemoryQueue, reserve}
use app_generation_microserv.Jobs.{BuildJob, get, save, is_open}
use app_generation_microserv.Worker.{
  Worker, Service, Next, idle, dropped, start, attempted, begun, attempt, consider, after_reserve,
  pick,
}

-- The record that the worker found for the id it reserved, and the one it starts the build from.
pub record IsStart (w : Worker) (now : ℕ) (s : Service) (job : BuildJob) (s' : Service)
    : Type 0 where
  pub job_id : String
  pub found : BuildJob
  pub reserved : (reserve w.owner w.lease_seconds now s.queue).0 ≡ some job_id
  pub was_there : get job_id s.jobs ≡ some found
  pub was_open : is_open found.status ≡ true
  pub counted : job ≡ begun now (attempted found)
  pub within : job.attempts ≤ w.max_attempts
  pub written : s'.jobs ≡ save job s.jobs
  pub leased : s'.queue ≡ (reserve w.owner w.lease_seconds now s.queue).1

-- the parts of `start`
abbrev Starts : BuildJob → Service → Next → Type 0
Starts job s (idle _) = ⊥
Starts job s (dropped _) = ⊥
Starts job s (start j t) = (j ≡ job) × (t ≡ s)

start_parts : (n : Next) (job : BuildJob) (s : Service) → n ≡ start job s → Starts job s n
start_parts n job s e = subst (Starts job s) (sym e) (refl, refl)

attempt-start :
    (w : Worker) (now : ℕ) (job_id : String) (old : BuildJob) (t : Service) (job : BuildJob)
    (s' : Service)
    → Starts job s' (attempt w now job_id (attempted old) t)
    → (old.attempts + 1 ≤ w.max_attempts)
      × (begun now (attempted old) ≡ job)
      × (record t { jobs = save (begun now (attempted old)) t.jobs } ≡ s')
unfolding attempt attempted
attempt-start w now job_id old t job s' h =
    elim (Bool-cases (ltb w.max_attempts (old.attempts + 1))) [
      | inl over ↦ absurd (rw over at h)
      | inr fine ↦ (let h' = rw fine at h in (ground (arith, fine), h'.0, h'.1))
    ]

-- A worker starts a build only for the id it has just reserved, from a record that is neither
-- succeeded nor failed; it counts the attempt, never beyond the limit, and has written the record
-- as running before the build starts.
pub pick_start :
    (w : Worker) (now : ℕ) (s : Service) (job : BuildJob) (s' : Service)
    → pick w now s ≡ start job s'
    → IsStart w now s job s'
unfolding pick after_reserve consider begun attempted
pick_start w now s job s' e =
    reserved_at (reserve w.owner w.lease_seconds now s.queue) refl
      (start_parts (pick w now s) job s' e)
  where
    found_at :
        (job_id : String) (o : Option BuildJob) (q : MemoryQueue)
        → reserve w.owner w.lease_seconds now s.queue ≡ (some job_id, q)
        → get job_id s.jobs ≡ o
        → Starts job s' (consider w now job_id o (record s { queue = q }))
        → IsStart w now s job s'
    found_at job_id none q r g h = absurd h
    found_at job_id (some old) q r g h = elim (Bool-cases (is_open old.status)) [
      | inr closed ↦ absurd (rw closed at h)
      | inl opened ↦
          let t : Service = record s { queue = q } in
          let (within, same, after) = attempt-start w now job_id old t job s' (rw opened at h) in
          record {
            job_id = job_id;
            found = old;
            reserved = ap (λ (x : Option String × MemoryQueue). x.0) r;
            was_there = g;
            was_open = opened;
            counted = sym same;
            within = subst (λ (j : BuildJob). j.attempts ≤ w.max_attempts) same within;
            written =
                ap (λ (x : Service). x.jobs) (sym after)
                ∙ ap (λ (j : BuildJob). save j s.jobs) same;
            leased =
                ap (λ (x : Service). x.queue) (sym after)
                ∙ sym (ap (λ (x : Option String × MemoryQueue). x.1) r);
          }
    ]

    reserved_at :
        (r : Option String × MemoryQueue)
        → reserve w.owner w.lease_seconds now s.queue ≡ r
        → Starts job s' (after_reserve w now r.0 (record s { queue = r.1 }))
        → IsStart w now s job s'
    reserved_at (none, q) r h = absurd h
    reserved_at (some job_id, q) r h = found_at job_id (get job_id s.jobs) q r refl h
