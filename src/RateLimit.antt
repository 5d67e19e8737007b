-- ===== src/RateLimit.antt =====
-- src/service/ratelimit.py: who a request is charged to, and the fixed window per caller. Texts that
-- the code takes apart are lists of code points; the time is in microseconds.
pub mod Identity
pub mod Window
use Prim.Native.Nat.{◌/◌}
use Prim.Native.String.{◌++◌}
use mathlib.Core.List
use app_generation_microserv.Base.{
  ℕ, ◌+◌, ◌*◌, ◌-◌, String, Bool, true, false, not, ◌&&◌, ◌||◌, Option, none, some, List, [], ◌∷◌,
  keep, map, length, eqb, leb, ltb, if◌then◌else◌, second,
}
use app_generation_microserv.Base.Dict.{Dict, lookup, insert, select}
use app_generation_microserv.Base.Text.{codes, lstrip, decimal}
use app_generation_microserv.Redis.{Redis}

-- The characters that `str.strip()` takes off.
abbrev pub is_space : ℕ → Bool
is_space c =
    (leb 9 c && leb c 13)
    || (leb 28 c && leb c 32)
    || eqb c 133
    || eqb c 160
    || eqb c 5760
    || (leb 8192 c && leb c 8202)
    || eqb c 8232
    || eqb c 8233
    || eqb c 8239
    || eqb c 8287
    || eqb c 12288

unfoldable pub strip : List ℕ → List ℕ
strip s = List.reverse (lstrip is_space (List.reverse (lstrip is_space s)))

-- `text.split(",")`: the first part, and the others
abbrev pub on_first : ℕ → List (List ℕ) → List (List ℕ)
on_first c [] = (c ∷ []) ∷ []
on_first c (part ∷ parts) = (c ∷ part) ∷ parts

unfoldable pub split : List ℕ → List (List ℕ)
split [] = [] ∷ []
split (c ∷ s) = let rest = split s in if eqb c b',' then [] ∷ rest else on_first c rest

abbrev pub is_nonempty : List ℕ → Bool
is_nonempty [] = false
is_nonempty (_ ∷ _) = true

unfoldable pub hops : List ℕ → List (List ℕ)
hops forwarded_for = keep is_nonempty (map strip (split forwarded_for))

abbrev pub last_or : List ℕ → List (List ℕ) → List ℕ
last_or d [] = d
last_or d (x ∷ xs) = last_or x xs

-- `peer or "unknown"`
abbrev pub peer_or_unknown : Option (List ℕ) → List ℕ
peer_or_unknown none = codes "unknown"
peer_or_unknown (some []) = codes "unknown"
peer_or_unknown (some (c ∷ s)) = c ∷ s

-- No header and an empty one are the same to the code.
unfoldable pub client_identity : Option (List ℕ) → Option (List ℕ) → List ℕ
unfolding hops
client_identity none peer = peer_or_unknown peer
client_identity (some []) peer = peer_or_unknown peer
client_identity (some (c ∷ s)) peer = last_or (peer_or_unknown peer) (hops (c ∷ s))

-- `_Window`
pub record Counter : Type 0 where
  pub count : ℕ
  pub resets_at : ℕ

pub record RateLimiter : Type 0 where
  pub limit : ℕ
  pub window_seconds : ℕ
  pub name : String

-- `max(1, int(end - now))` for a number of microseconds
abbrev pub wait : ℕ → ℕ
wait left = if leb (left / second) 1 then 1 else left / second

-- the caller's window at the moment, a new one if there is none or it is over
unfoldable pub current : RateLimiter → ℕ → Option Counter → Counter
current l now none = record { count = 0; resets_at = now + l.window_seconds * second }
current l now (some w) =
    if leb w.resets_at now
    then record { count = 0; resets_at = now + l.window_seconds * second }
    else w

-- the sweep
unfoldable pub swept : ℕ → Dict Counter → Dict Counter
swept now d = if ltb 10000 (length d) then select (λ _ w. not (leb w.resets_at now)) d else d

unfoldable pub counted : Counter → Counter
counted w = record w { count = w.count + 1 }

unfoldable pub check_local : RateLimiter → String → ℕ → Dict Counter → Option ℕ × Dict Counter
unfolding current swept counted
check_local l identity now d =
    let w = counted (current l now (lookup identity d)) in
    let d' = insert identity w d in
    if ltb l.limit w.count then (some (wait (w.resets_at - now)), d') else (none, swept now d')

module _ (R : Redis) where
  open R use {State, incr_expire}

  unfoldable pub bucket_key : RateLimiter → String → ℕ → String
  bucket_key l identity bucket = "ratelimit:" ++ l.name ++ ":" ++ identity ++ ":" ++ decimal bucket

  -- for a window of at least a second
  unfoldable pub check_redis : RateLimiter → String → ℕ → State → Option ℕ × State
  unfolding bucket_key
  check_redis l identity now s =
      let bucket = now / (l.window_seconds * second) in
      let (count, s') = incr_expire now (bucket_key l identity bucket) (l.window_seconds + 1) s in
      if ltb l.limit count
      then (some (wait ((bucket + 1) * l.window_seconds * second - now)), s')
      else (none, s')

  -- `check`: off where the limit is 0; the shared window, and the local one if Redis raises, in
  -- which case the shared state may have been changed or not
  pub data Source : Type 0 where
    without_redis : Source
    shared : Source
    raises : State → Source

  unfoldable pub check :
      RateLimiter → Source → String → ℕ → Dict Counter × State → Option ℕ × Dict Counter × State
  unfolding check_local check_redis
  check l source identity now (d, s) = if not (ltb 0 l.limit) then (none, d, s) else elim source [
    | without_redis ↦ (let (r, d') = check_local l identity now d in (r, d', s))
    | shared ↦ (let (r, s') = check_redis l identity now s in (r, d, s'))
    | raises s' ↦ (let (r, d') = check_local l identity now d in (r, d', s'))
  ]
