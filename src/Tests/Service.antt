-- ===== src/Tests/Service.antt =====
-- Requests and a job, on which the theorems of RateLimit, Jobs and Worker hold.
use app_generation_microserv.Base.{
  ◌≤◌, ◌⊎◌, ◌≡◌, refl, eq_iff, false, Bool-cases, inl, inr, String, ◌==◌, none, some, List, [], ◌∷◌,
  ◌++◌, arith,
}
use app_generation_microserv.Base.Text.{codes}
use app_generation_microserv.Base.Json.{end}
use app_generation_microserv.Base.Dict.{lookup}
use app_generation_microserv.Queue.Memory.{
  reserve, reserve_from, renew, refused, lapsed_at, put_back, requeue_expired,
}
use app_generation_microserv.Worker.{
  Worker, Service, start, attempted, begun, attempt, consider, after_reserve, pick, Beat, concluded,
  execute, recover_abandoned, tell_all,
}
use app_generation_microserv.Worker.Start.{IsStart, pick_start}
use app_generation_microserv.Worker.Result.{execute_recorded}
use app_generation_microserv.Worker.Loop.{Turn, Loop, is_due, run_forever}
use app_generation_microserv.Worker.Kept.{IsHeld, IsKept}
use app_generation_microserv.Worker.Kept.Run.{IsSound, run_forever-IsKept}
use app_generation_microserv.Jobs.{
  running, succeeded, failed, save, BuildJob, queued, JobStore, create, get, reap_stale,
}
use app_generation_microserv.Jobs.Reaper.{IsSilent, IsLive, reap_stale_settles}
use app_generation_microserv.RateLimit.{RateLimiter, current, strip, client_identity}
use app_generation_microserv.RateLimit.Identity.{client_identity_appended}
use app_generation_microserv.RateLimit.Window.{Request, admitted, admitted_window}

client_identity_appended_example :
    client_identity (some (codes "1.2.3.4, 5.6.7.8" ++ b',' ∷ codes " 9.9.9.9")) none
    ≡ strip (codes " 9.9.9.9")
unfolding strip
client_identity_appended_example =
    client_identity_appended (codes "1.2.3.4, 5.6.7.8") (codes " 9.9.9.9") none refl refl

-- `strip` takes the blank off.
strip_blank : strip (codes " 9.9.9.9 ") ≡ codes "9.9.9.9"
unfolding strip
strip_blank = refl

abbrev limiter : RateLimiter
limiter = record { limit = 2; window_seconds = 60; name = "builds" }

abbrev requests : List Request
requests =
    record { identity = "a"; now = 2000000 }
    ∷ record { identity = "b"; now = 3000000 }
    ∷ record { identity = "a"; now = 50000000 }
    ∷ []

admitted_window_example :
    admitted limiter "a" (record { identity = "a"; now = 1000000 } ∷ requests) [] ≤ 2
unfolding current
admitted_window_example =
    admitted_window limiter "a" 1000000 requests [] tt (omega arith) refl
      (omega arith, (omega arith, (omega arith, tt)))

-- a job that was last seen at 5 seconds
abbrev job : BuildJob
job = record {
  id = "j1";
  app_name = "Shop";
  status = queued;
  created_at = 5000000;
  finished_at = none;
  log = [];
  diagnostics = [];
  failure = none;
  apk_path = none;
  build_dir = none;
  heartbeat_at = none;
  settlement_tx = none;
  usage = end;
  prd = none;
  paid = false;
  preview = false;
  attempts = 0;
}

abbrev store : JobStore
store = ("j1", job) ∷ []

created : create "j1" 5000000 "Shop" none [] ≡ (job, store)
unfolding create
created = refl

reap_stale_settles_example :
    let (job', store') = reap_stale 2000000000 job store in
    ((IsLive 2000000000 job × (job' ≡ job) × (store' ≡ store))
      ⊎ (IsSilent 2000000000 job
          × (job'.status ≡ failed)
          × (job'.finished_at ≡ some 2000000000)
          × (reap_stale 3000000000 job' store' ≡ (job', store'))))
    × (get "j1" store' ≡ some job')
    × (get "j2" store' ≡ get "j2" store)
unfolding get
reap_stale_settles_example = reap_stale_settles 2000000000 3000000000 job store "j2" refl refl

abbrev worker : Worker
worker = record { owner = "w1"; lease_seconds = 300; max_attempts = 3 }

abbrev service : Service
service = record { queue = record { pending = "j1" ∷ []; leases = [] }; jobs = store }

-- the record when the build starts, and the service then
abbrev started : BuildJob
started = record job { status = running; heartbeat_at = some 9000000; attempts = 1 }

abbrev building : Service
building = record {
  queue = record {
    pending = [];
    leases = ("j1", record { owner = "w1"; expires = 309000000 }) ∷ [];
  };
  jobs = ("j1", started) ∷ [];
}

picked : pick worker 9000000 service ≡ start started building
unfolding pick after_reserve consider attempt attempted begun get save reserve reserve_from
picked = refl

pick_start_example : IsStart worker 9000000 service started building
pick_start_example = pick_start worker 9000000 service started building picked

abbrev first_beat : Beat
first_beat = record { others = λ s. s; now = 39000000; job = started }

abbrev last_beat : Beat
last_beat = record {
  others = λ s. s;
  now = 60000000;
  job = record started { status = succeeded; apk_path = some "app-release.apk" };
}

execute_recorded_example :
    (lookup "j1" (execute worker "j1" (first_beat ∷ []) last_beat building).1.queue.leases
      ≡ some (record { owner = "w1"; expires = 360000000 }))
    × (get "j1" (execute worker "j1" (first_beat ∷ []) last_beat building).1.jobs
        ≡ some (concluded 60000000 last_beat.job))
unfolding execute renew refused
execute_recorded_example = execute_recorded worker "j1" (first_beat ∷ []) last_beat building refl

-- a turn that builds the job, without a disturbance
abbrev turn : Turn
turn = record {
  others = λ s. s;
  monotonic = 7000000;
  now = 9000000;
  beats = first_beat ∷ [];
  last = last_beat;
}

abbrev fresh : Loop
fresh = record { recovered_at = 0; shared = service }

service-IsKept : IsKept service
unfolding get
service-IsKept = (tt, λ k. go k)
  where
    go : (k : String) → IsHeld service.queue k (get k store)
    go k = elim (Bool-cases ("j1" == k)) [
      | inl this ↦
          (let same : "j1" ≡ k = (eq_iff "j1" k).0 this in rw this (same, ground (arith, this)))
      | inr other ↦ rw other tt
    ]

turn-IsSound : IsSound worker 5000000 (turn ∷ []) fresh
unfolding is_due recover_abandoned tell_all requeue_expired lapsed_at put_back
turn-IsSound = ((λ s h. h, rw picked ((((λ s h. h), refl), tt), (λ s h. h, refl, refl))), tt)

run_forever-IsKept_example : IsKept (run_forever worker 5000000 (turn ∷ []) fresh).shared
run_forever-IsKept_example =
    run_forever-IsKept worker 5000000 (turn ∷ []) fresh turn-IsSound service-IsKept
