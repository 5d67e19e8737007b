-- ===== src/Jobs.antt =====
-- src/service/jobs.py: the records of builds, the stores of them, and the reaper of abandoned ones.
-- A date is a number of microseconds; `usage` and `prd` are the JSON values that they hold. The
-- stores are the dict of the in-memory store; a store hands out and takes whole records.
pub mod Reaper
pub mod Json
pub mod Shared
use Prim.Native.String.{◌++◌}
use app_generation_microserv.Base.{
  ℕ, ◌+◌, ◌*◌, String, ◌==◌, Bool, true, false, not, Option, none, some, List, [], ◌∷◌, leb,
  if◌then◌else◌, second,
}
use app_generation_microserv.Base.Dict.{Dict, lookup, insert}
use app_generation_microserv.Base.Json.{Value, Fields, end}

pub data BuildStatus : Type 0 where
  queued running succeeded failed : BuildStatus

pub record BuildJob : Type 0 where
  pub id : String
  pub app_name : String
  pub status : BuildStatus
  pub created_at : ℕ
  pub finished_at : Option ℕ
  pub log : List String
  pub diagnostics : List String
  pub failure : Option String
  pub apk_path : Option String
  pub build_dir : Option String
  pub heartbeat_at : Option ℕ
  pub settlement_tx : Option Value
  pub usage : Fields
  pub prd : Option Fields
  pub paid : Bool
  pub preview : Bool
  pub attempts : ℕ

abbrev pub JobStore : Type 0
JobStore = Dict BuildJob

-- a job with a fresh id, at a time
unfoldable pub create : String → ℕ → String → Option Fields → JobStore → BuildJob × JobStore
create id now app_name prd store =
    let job : BuildJob = record {
      id = id;
      app_name = app_name;
      status = queued;
      created_at = now;
      finished_at = none;
      log = [];
      diagnostics = [];
      failure = none;
      apk_path = none;
      build_dir = none;
      heartbeat_at = none;
      settlement_tx = none;
      usage = end;
      prd = prd;
      paid = false;
      preview = false;
      attempts = 0;
    } in
    (job, insert id job store)

unfoldable pub get : String → JobStore → Option BuildJob
get job_id store = lookup job_id store

unfoldable pub save : BuildJob → JobStore → JobStore
save job store = insert job.id job store

-- STALE_AFTER, in microseconds
abbrev pub stale_after : ℕ
stale_after = 1800 * second

abbrev pub is_open : BuildStatus → Bool
is_open queued = true
is_open running = true
is_open succeeded = false
is_open failed = false

-- `job.heartbeat_at or job.created_at`
abbrev pub seen_or : ℕ → Option ℕ → ℕ
seen_or created none = created
seen_or created (some t) = t

abbrev pub last_seen : BuildJob → ℕ
last_seen job = seen_or job.created_at job.heartbeat_at

unfoldable pub abandoned : ℕ → BuildJob → BuildJob
abandoned moment job = record job {
  status = failed;
  failure = some (
      "build was abandoned — no worker has reported on it for 30 minutes, and none is expected to. "
      ++ "A durable queue (REDIS_URL) lets an abandoned build be retried by another worker instead.");
  finished_at = some moment;
}

unfoldable pub reap_stale : ℕ → BuildJob → JobStore → BuildJob × JobStore
unfolding save abandoned
reap_stale moment job store =
    if not (is_open job.status)
    then (job, store)
    else if leb moment (last_seen job + stale_after)
    then (job, store)
    else (abandoned moment job, save (abandoned moment job) store)
