-- ===== src/Queue/Redis.antt =====
-- src/service/queue.py: `RedisBuildQueue`, over a Redis server. A method takes the time and the
-- server's state; a method that is more than one command has a definition for what stands between
-- them, since other workers' commands, or a crash, may come there.
pub mod Conservation
pub mod Race
use app_generation_microserv.Base.{
  ℕ, ◌+◌, String, ◌==◌, Bool, true, false, Option, none, some, List, [], ◌∷◌, if◌then◌else◌, eqb,
  is_some, length, count,
}
use Prim.Native.String.{◌++◌}
use app_generation_microserv.Redis.{Redis}

-- The constructor's `prefix`, of which the key names are made.
pub record RedisQueue : Type 0 where
  pub key_prefix : String

abbrev pub pending : RedisQueue → String
pending c = c.key_prefix ++ "pending"

abbrev pub inflight : RedisQueue → String
inflight c = c.key_prefix ++ "inflight"

abbrev pub lease_key : RedisQueue → String → String
lease_key c job_id = (c.key_prefix ++ "lease:") ++ job_id

-- How a call of the client ends: it returns, or it raises.
pub data Reply (A : Type 0) : Type 0 where
  returned : A → Reply A
  raised : Reply A

module _ (R : Redis) (c : RedisQueue) where
  open R use {State, lrange, get, lpush, lmove, lrem_all, lrem_first, set_ex, expire, delete}

  unfoldable pub push : String → State → State
  push job_id s = lpush (pending c) job_id s

  -- the first command, and the second, which a crash may leave out
  unfoldable pub reserve_move : State → Option String × State
  reserve_move s = lmove (pending c) (inflight c) s

  unfoldable pub reserve_lease : String → ℕ → ℕ → Option String → State → State
  reserve_lease owner lease_seconds now none s = s
  reserve_lease owner lease_seconds now (some job_id) s =
      set_ex now (lease_key c job_id) owner lease_seconds s

  unfoldable pub reserve : String → ℕ → ℕ → State → Option String × State
  unfolding reserve_move reserve_lease
  reserve owner lease_seconds now s =
      let (job_id, s') = reserve_move s in (job_id, reserve_lease owner lease_seconds now job_id s')

  -- `held != owner`, after which the lease is extended; between the two commands the clock may move
  -- from `now` to `later`, and others may have changed the state from the one that was read
  unfoldable pub renew_read : String → Reply (Option String) → Bool
  renew_read owner raised = false
  renew_read owner (returned none) = false
  renew_read owner (returned (some held)) = held == owner

  unfoldable pub renew : String → String → ℕ → Reply (Option String) → ℕ → State → Bool × State
  unfolding renew_read
  renew job_id owner lease_seconds held later s =
      if renew_read owner held
      then expire later (lease_key c job_id) lease_seconds s
      else (false, s)

  -- `self._redis.get(self._lease_key(job_id))`
  unfoldable pub held_at : String → ℕ → State → Option String
  held_at job_id now s = get now (lease_key c job_id) s

  unfoldable pub ack : String → State → State
  ack job_id s = delete (lease_key c job_id) (lrem_all (inflight c) job_id s).1

  -- One round of the loop of `requeue_expired`: EXISTS, LREM, and LPUSH if LREM removed something.
  unfoldable pub requeue_drop : String → State → ℕ × State
  requeue_drop job_id s = lrem_first (inflight c) job_id s

  unfoldable pub requeue_one : ℕ → String → State → Bool × State
  unfolding requeue_drop
  requeue_one now job_id s =
      if is_some (get now (lease_key c job_id) s)
      then (false, s)
      else (let (removed, s') = requeue_drop job_id s in
          if eqb removed 0 then (false, s') else (true, lpush (pending c) job_id s'))

  -- The loop, over the ids that LRANGE returned when the call began.
  unfoldable pub requeue_loop : ℕ → List String → State → List String × State
  requeue_loop now [] s = ([], s)
  requeue_loop now (job_id ∷ jobs) s =
      let (moved, s') = requeue_one now job_id s in
      let (requeued, s'') = requeue_loop now jobs s' in
      (if moved then job_id ∷ requeued else requeued, s'')

  unfoldable pub requeue_expired : ℕ → State → List String × State
  unfolding requeue_loop requeue_one
  requeue_expired now s = requeue_loop now (lrange (inflight c) s) s

  unfoldable pub depth : State → ℕ
  depth s = length (lrange (pending c) s)

  -- How often the two lists hold a job.
  abbrev pub holdings : String → State → ℕ
  holdings k s = count k (lrange (pending c) s) + count k (lrange (inflight c) s)
