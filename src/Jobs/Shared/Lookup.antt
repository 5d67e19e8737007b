-- ===== src/Jobs/Shared/Lookup.antt =====
-- src/service/jobs.py: what `RedisJobStore` finds of what it has saved.
use Prim.Native.String.{◌++◌}
use app_generation_microserv.Base.{
  ℕ, ◌+◌, ◌*◌, ◌≤◌, ◌≡◌, refl, none, some, ltb, if◌then◌else◌, second, eq_refl, Bool-cases, inl,
  inr,
}
use app_generation_microserv.Redis.{Redis}
use app_generation_microserv.Jobs.{BuildJob}
use app_generation_microserv.Jobs.Json.{Codec, to_json}
use app_generation_microserv.Jobs.Json.RoundTrip.{IsStorable, from_json-to_json}
use app_generation_microserv.Jobs.Shared.{RedisJobStore, job_key, get_shared, save_shared}

module _ (R : Redis) (C : Codec) (store : RedisJobStore) where
  open R use {State, get as redis_get, set_ex}

  -- A record whose dict and dates the codecs read as they wrote them is read back as it was until the retention is over, and is gone from
  -- then on.
  pub get_shared-save_shared :
      (now later : ℕ) (job : BuildJob) (s : State)
      → IsStorable C job
      → now ≤ later
      → get_shared R C store later job.id (save_shared R C store now job s)
        ≡ (if ltb later (now + store.ttl * second) then some job else none)
  unfolding get_shared save_shared job_key
  get_shared-save_shared now later job s h n =
      let e =
        R.get-set_ex now (store.prefix ++ job.id) (to_json C job) store.ttl later
          (store.prefix ++ job.id) s n in
      elim (Bool-cases (ltb later (now + store.ttl * second))) [
        | inl kept ↦ rw (e, eq_refl, kept) (from_json-to_json C job h)
        | inr over ↦ rw (e, eq_refl, over) refl
      ]
