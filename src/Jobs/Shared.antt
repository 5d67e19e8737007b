-- ===== src/Jobs/Shared.antt =====
-- src/service/jobs.py: `RedisJobStore`, over the server of Redis.
pub mod Lookup
use Prim.Native.String.{◌++◌}
use mathlib.Core.List
use app_generation_microserv.Base.{ℕ, String, Option, none, some}
use app_generation_microserv.Base.Json.{Fields}
use app_generation_microserv.Redis.{Redis}
use app_generation_microserv.Jobs.{BuildJob, create}
use app_generation_microserv.Jobs.Json.{Codec, to_json, from_json}

pub record RedisJobStore : Type 0 where
  pub prefix : String
  pub ttl : ℕ

-- the defaults of `__init__`; the retention is that of seven days
abbrev pub default_store : RedisJobStore
default_store = record { prefix = "build:job:"; ttl = 604_800 }

module _ (R : Redis) (C : Codec) (store : RedisJobStore) where
  open R use {State, get as redis_get, set_ex}

  unfoldable pub job_key : String → String
  job_key job_id = store.prefix ++ job_id

  abbrev pub readable : Option String → Option BuildJob
  readable none = none
  readable (some blob) = from_json C blob

  unfoldable pub get_shared : ℕ → String → State → Option BuildJob
  unfolding job_key from_json
  get_shared now job_id s = readable (redis_get now (job_key job_id) s)

  unfoldable pub save_shared : ℕ → BuildJob → State → State
  unfolding job_key to_json
  save_shared now job s = set_ex now (job_key job.id) (to_json C job) store.ttl s

  unfoldable pub create_shared : String → ℕ → String → Option Fields → State → BuildJob × State
  unfolding save_shared create
  create_shared id now app_name prd s =
      let (job, _) = create id now app_name prd mathlib.Core.List.[] in (job, save_shared now job s)
