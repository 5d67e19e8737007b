-- ===== src/Tests/Queues.antt =====
-- Queues with jobs in them, on which the theorems of Queue hold.
use app_generation_microserv.Base.{◌≡◌, ◌==◌, if◌then◌else◌, refl, List, [], ◌∷◌}
use app_generation_microserv.Queue.Memory.{
  MemoryQueue, IsValid, holdings, Event, pushed, reserved, renewed, acked, requeued, run,
}
use app_generation_microserv.Queue.Memory.Conservation.{run-holdings}
use app_generation_microserv.Queue.Redis.{
  RedisQueue, requeue_drop, requeue_loop, holdings as holdings_shared,
}
use app_generation_microserv.Queue.Redis.Conservation.{requeue_loop-holdings}
use app_generation_microserv.Queue.Redis.Race.{requeue_drop-holdings_lost}
use app_generation_microserv.Tests.FakeRedis.{Server, fake, empty_server}

-- "b" waits, and "a" is held until 5 seconds
abbrev two_jobs : MemoryQueue
two_jobs = record {
  pending = "b" ∷ [];
  leases = ("a", record { owner = "w1"; expires = 5000000 }) ∷ [];
}

two_jobs-IsValid : IsValid two_jobs
two_jobs-IsValid = (refl, tt)

-- Other jobs come and go, and "a" is renewed, lost to a reaper and taken again.
abbrev busy : List Event
busy =
    pushed "c"
    ∷ reserved "w2" 5 1000000
    ∷ renewed "a" "w1" 5 2000000
    ∷ acked "b"
    ∷ requeued 8000000
    ∷ reserved "w3" 5 8000000
    ∷ reserved "w3" 5 8000000
    ∷ []

run-holdings_example : holdings "a" (run busy two_jobs) ≡ 1
run-holdings_example = run-holdings busy two_jobs "a" two_jobs-IsValid refl refl

abbrev quiet : List Event
quiet = reserved "w2" 5 1000000 ∷ requeued 4000000 ∷ renewed "a" "w1" 5 4000000 ∷ []

abbrev queue : RedisQueue
queue = record { key_prefix = "build:queue:" }

abbrev waiting : Server
waiting = record empty_server {
  lists = λ j. if j == "build:queue:pending" then "b" ∷ "a" ∷ [] else [];
}

abbrev working : Server
working = record empty_server { lists = λ j. if j == "build:queue:inflight" then "a" ∷ [] else [] }

requeue_loop-holdings_example :
    holdings_shared fake queue "a" (requeue_loop fake queue 7 ("a" ∷ []) working).1
    ≡ holdings_shared fake queue "a" working
requeue_loop-holdings_example = requeue_loop-holdings fake queue 7 ("a" ∷ []) working "a"

requeue_drop-holdings_lost_example :
    holdings_shared fake queue "a"
      (requeue_loop fake queue 7 ("a" ∷ []) (requeue_drop fake queue "a" working).1).1
    ≡ 0
requeue_drop-holdings_lost_example =
    requeue_drop-holdings_lost fake queue "a" working 7 ("a" ∷ []) refl refl
