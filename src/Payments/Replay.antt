-- ===== src/Payments/Replay.antt =====
-- src/payments/replay.py: the nonce stores. The lock of the in-memory store makes each method one
-- step; `time.time()` is an argument, in microseconds, so that `int(time.time())` is its quotient.
pub mod Memory
pub mod Shared
use Prim.Native.Nat.{◌/◌}
use Prim.Native.String.{◌++◌}
use app_generation_microserv.Base.{
  ℕ, ◌+◌, ◌*◌, ◌-◌, String, Bool, true, false, Option, none, some, ltb, leb, not, if◌then◌else◌,
  second, arith,
}
use app_generation_microserv.Base.Dict.{Dict, lookup, insert, select, has}
use app_generation_microserv.Base.Text.{decimal}
use app_generation_microserv.Redis.{Redis}

-- `_claimed`: when each claimed key expires, in seconds
abbrev pub NonceStore : Type 0
NonceStore = Dict ℕ

-- `_evict_expired`
unfoldable pub evict_expired : ℕ → NonceStore → NonceStore
evict_expired moment claimed = select (λ _ exp. not (leb exp moment)) claimed

unfoldable pub claim : String → ℕ → ℕ → NonceStore → Bool × NonceStore
unfolding evict_expired
claim key expires_at now claimed =
    let kept = evict_expired (now / second) claimed in
    if has key kept then (false, kept) else (true, insert key expires_at kept)

pub seen : String → NonceStore → Bool
seen key claimed = has key claimed

pub record RedisNonceStore : Type 0 where
  pub key_prefix : String
  pub grace : ℕ

abbrev pub nonce_key : RedisNonceStore → String → String
nonce_key c key = c.key_prefix ++ key

module _ (R : Redis) (c : RedisNonceStore) where
  open R use {State, set_nx_ex, get}

  -- What the client's call comes to: Redis answers, or an exception, after which the key may have
  -- been set or not.
  pub data Line : Type 0 where
    answers : Line
    raises : (was_set : Bool) → Line

  unfoldable pub sent : Line → ℕ → String → ℕ → State → Bool × State
  sent answers now key ttl s = set_nx_ex now (nonce_key c key) (decimal (now / second)) ttl s
  sent (raises true) now key ttl s =
      (false, (set_nx_ex now (nonce_key c key) (decimal (now / second)) ttl s).1)
  sent (raises false) now key ttl s = (false, s)

  -- `int(expires_at - time.time())`, which is not positive if the difference is below a second
  unfoldable pub remaining : ℕ → ℕ → ℕ
  remaining expires_at now = (expires_at * second - now) / second

  unfoldable pub claim_shared : Line → String → ℕ → ℕ → State → Bool × State
  unfolding sent remaining
  claim_shared line key expires_at now s =
      if leb (remaining expires_at now) 0
      then (false, s)
      else sent line now key (remaining expires_at now + c.grace) s
