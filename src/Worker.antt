-- ===== src/Worker.antt =====
-- src/service/worker.py: `BuildWorker` over the in-memory queue and store. The build runs on a thread
-- of its own, so what it has made of the record by each heartbeat, and what others do to the queue
-- and the store in between, come as a list of beats. The clocks are arguments.
pub mod Start
pub mod Result
pub mod Loop
pub mod Kept
use Prim.Native.String.{◌++◌}
use mathlib.Core.List
use app_generation_microserv.Base.{
  ℕ, ◌+◌, ◌-◌, String, Bool, true, false, not, Option, none, some, List, [], ◌∷◌, ltb,
  if◌then◌else◌,
}
use app_generation_microserv.Base.Text.{decimal}
use app_generation_microserv.Queue.Memory.{MemoryQueue, reserve, renew, ack, requeue_expired}
use app_generation_microserv.Jobs.{
  BuildStatus, queued, running, succeeded, failed, BuildJob, JobStore, get, save, is_open, seen_or,
}

pub record Worker : Type 0 where
  pub owner : String
  pub lease_seconds : ℕ
  pub max_attempts : ℕ

pub record Service : Type 0 where
  pub queue : MemoryQueue
  pub jobs : JobStore

unfoldable pub requeued_job : ℕ → BuildJob → BuildJob
requeued_job now job = record job {
  status = queued;
  heartbeat_at = some now;
  log =
      List.◌++◌ job.log
        (("attempt " ++ decimal job.attempts ++ " was abandoned by its worker; requeued") ∷ []);
}

unfoldable pub tell : ℕ → Option BuildJob → JobStore → JobStore
unfolding requeued_job save
tell now none jobs = jobs
tell now (some job) jobs = save (requeued_job now job) jobs

-- the loop of `recover_abandoned`
unfoldable pub tell_all : ℕ → List String → JobStore → JobStore
unfolding tell get
tell_all now [] jobs = jobs
tell_all now (job_id ∷ ids) jobs = tell_all now ids (tell now (get job_id jobs) jobs)

unfoldable pub recover_abandoned : ℕ → Service → List String × Service
unfolding tell_all requeue_expired
recover_abandoned now s =
    let (requeued, q) = requeue_expired now s.queue in
    (requeued, record { queue = q; jobs = tell_all now requeued s.jobs })

-- `_give_up`
unfoldable pub given_up : Worker → ℕ → BuildJob → BuildJob
given_up w now job = record job {
  status = failed;
  failure = some (
      "build was abandoned "
      ++ decimal (job.attempts - 1)
      ++ " times and has exhausted its "
      ++ decimal w.max_attempts
      ++ " attempts. A build that repeatedly kills its worker is not retried further.");
  finished_at = some now;
  heartbeat_at = some now;
}

-- What `run_once` has come to before it executes: no job, a job it is done with, or a job to run.
pub data Next : Type 0 where
  idle : Service → Next
  dropped : Service → Next
  start : BuildJob → Service → Next

-- the record counts the attempt
unfoldable pub attempted : BuildJob → BuildJob
attempted job = record job { attempts = job.attempts + 1 }

unfoldable pub begun : ℕ → BuildJob → BuildJob
begun now job = record job { status = running; heartbeat_at = some now }

-- from `job.attempts += 1` on
unfoldable pub attempt : Worker → ℕ → String → BuildJob → Service → Next
unfolding given_up begun save ack
attempt w now job_id job s =
    if ltb w.max_attempts job.attempts
    then dropped (record { queue = ack job_id s.queue; jobs = save (given_up w now job) s.jobs })
    else start (begun now job) (record s { jobs = save (begun now job) s.jobs })

unfoldable pub consider : Worker → ℕ → String → Option BuildJob → Service → Next
unfolding attempt attempted ack
consider w now job_id none s = dropped (record s { queue = ack job_id s.queue })
consider w now job_id (some job) s =
    if not (is_open job.status)
    then dropped (record s { queue = ack job_id s.queue })
    else attempt w now job_id (attempted job) s

unfoldable pub after_reserve : Worker → ℕ → Option String → Service → Next
unfolding consider get
after_reserve w now none s = idle s
after_reserve w now (some job_id) s = consider w now job_id (get job_id s.jobs) s

unfoldable pub pick : Worker → ℕ → Service → Next
unfolding after_reserve reserve
pick w now s =
    let (job_id, q) = reserve w.owner w.lease_seconds now s.queue in
    after_reserve w now job_id (record s { queue = q })

-- One wait of `_execute`: what others did in it, the time, and the record as the thread has left it.
pub record Beat : Type 0 where
  pub others : Service → Service
  pub now : ℕ
  pub job : BuildJob

-- what `_execute` writes at the end
unfoldable pub concluded : ℕ → BuildJob → BuildJob
concluded now job =
    let finished = seen_or now job.finished_at in
    record job { finished_at = some finished; heartbeat_at = some finished }

-- the loop; the last beat is the one at which the thread has ended
unfoldable pub execute : Worker → String → List Beat → Beat → Service → Bool × Service
unfolding renew concluded save
execute w job_id [] b s =
    let (held, q) = renew job_id w.owner w.lease_seconds b.now (b.others s).queue in
    if held
    then (true, record { queue = q; jobs = save (concluded b.now b.job) (b.others s).jobs })
    else (false, record { queue = q; jobs = (b.others s).jobs })
execute w job_id (b ∷ beats) last s =
    let (held, q) = renew job_id w.owner w.lease_seconds b.now (b.others s).queue in
    let go_on = execute w job_id beats last (record {
      queue = q;
      jobs = save (record b.job { heartbeat_at = some b.now }) (b.others s).jobs;
    }) in
    if held then go_on else (false, record { queue = q; jobs = (b.others s).jobs })

unfoldable pub finish : String → Bool × Service → Service
unfolding ack
finish job_id (true, s) = record s { queue = ack job_id s.queue }
finish job_id (false, s) = s

unfoldable pub run_next : Worker → List Beat → Beat → Next → Bool × Service
unfolding execute finish
run_next w beats last (idle s) = (false, s)
run_next w beats last (dropped s) = (true, s)
run_next w beats last (start job s) = (true, finish job.id (execute w job.id beats last s))

-- `run_once`; whether it is time to recover is an argument
unfoldable pub run_once : Worker → Bool → ℕ → List Beat → Beat → Service → Bool × Service
unfolding recover_abandoned pick run_next
run_once w recover now beats last s =
    run_next w beats last (pick w now (if recover then (recover_abandoned now s).1 else s))
