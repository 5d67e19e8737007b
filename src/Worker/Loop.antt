-- ===== src/Worker/Loop.antt =====
-- src/service/worker.py: `run_forever`, with the clock that spaces the recoveries. An end of the list
-- of turns is `stop`. The in-memory calls do not raise, so there is nothing for its `except` to log.
use app_generation_microserv.Base.{ℕ, ◌-◌, Bool, List, [], ◌∷◌, leb, if◌then◌else◌}
use app_generation_microserv.Worker.{Worker, Service, Beat, run_once}

-- One turn of the loop: what others did before it, the two clocks, and the beats of the build it
-- runs, if it runs one.
pub record Turn : Type 0 where
  pub others : Service → Service
  pub monotonic : ℕ
  pub now : ℕ
  pub beats : List Beat
  pub last : Beat

-- the worker's own state and what it shares
pub record Loop : Type 0 where
  pub recovered_at : ℕ
  pub shared : Service

-- `now - self._recovered_at >= self.recover_every`, on a clock that does not go back
unfoldable pub is_due : ℕ → ℕ → ℕ → Bool
is_due recover_every recovered_at now = leb recover_every (now - recovered_at)

-- `run_once`, with its clock. True if it ran a job.
unfoldable pub timed_once : Worker → ℕ → Turn → Loop → Bool × Loop
unfolding is_due run_once
timed_once w recover_every t l =
    let due = is_due recover_every l.recovered_at t.monotonic in
    let (did_work, s) = run_once w due t.now t.beats t.last (t.others l.shared) in
    (did_work, record { recovered_at = if due then t.monotonic else l.recovered_at; shared = s })

-- The wait of an idle turn is in the clocks of the next one.
unfoldable pub run_forever : Worker → ℕ → List Turn → Loop → Loop
unfolding timed_once
run_forever w recover_every [] l = l
run_forever w recover_every (t ∷ turns) l =
    run_forever w recover_every turns (timed_once w recover_every t l).1
