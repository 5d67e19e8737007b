-- ===== src/Queue/Redis/Conservation.antt =====
-- src/service/queue.py: the entries of a job in the two lists, command by command.
use text.Mathlib.TextLemmas.{append_cancel_left}
use app_generation_microserv.Base.{
  ℕ, String, ◌==◌, ◌≡◌, ◌≢◌, refl, sym, ◌∙◌, eq_iff, eq_refl, false, none, some, List, [], ◌∷◌,
  ◌++◌, ◌⊎◌, inl, inr, Option, arith, if◌then◌else◌, count-append, contains, Bool-cases,
}
use app_generation_microserv.Redis.{Redis, count-remove_first, remove_first}
use app_generation_microserv.Queue.Redis.{
  RedisQueue, pending, inflight, lease_key, push, reserve, reserve_move, reserve_lease,
  requeue_drop, requeue_one, requeue_loop, holdings,
}

pub pending-ne-inflight : (c : RedisQueue) → pending c ≢ inflight c
pending-ne-inflight c e = different (append_cancel_left c.key_prefix "pending" "inflight" e)
  where
    different : ◌≢◌ {A = String} "pending" "inflight"
    different = ground (arith, eq_iff "pending" "inflight")

-- A list is empty, or has a last item.
pub last_cases :
    (xs : List String) → (xs ≡ []) ⊎ ((ys : List String) × (y : String) × (xs ≡ ys ++ y ∷ []))
last_cases [] = inl refl
last_cases (x ∷ xs) =
    inr (elim (last_cases xs) [ inl e ↦ ([], x, rw e) | inr (ys, y, e) ↦ (x ∷ ys, y, rw e) ])

module _ (R : Redis) (c : RedisQueue) where
  open R use {
    State, lrange, get, lpush, lmove, lrem_first, set_ex, lrange-lpush, lmove-empty, lrange-lmove,
    lrem_first-count, lrange-lrem_first, lrange-set_ex,
  }

  apart : (pending c == inflight c) ≡ false
  apart = elim (Bool-cases (pending c == inflight c)) [
    | inl same ↦ absurd (pending-ne-inflight c ((eq_iff (pending c) (inflight c)).0 same))
    | inr ne ↦ ne
  ]

  apart' : (inflight c == pending c) ≡ false
  apart' = elim (Bool-cases (inflight c == pending c)) [
    | inl same ↦ absurd (pending-ne-inflight c (sym ((eq_iff (inflight c) (pending c)).0 same)))
    | inr ne ↦ ne
  ]

  reserve_move-holdings :
      (s : State) (k : String) → holdings R c k (reserve_move R c s).1 ≡ holdings R c k s
  unfolding reserve_move
  reserve_move-holdings s k = elim (last_cases (lrange (pending c) s)) [
    | inl e ↦ rw (lmove-empty (pending c) (inflight c) s e)
    | inr (xs, x, e) ↦
        rw
          (
            lrange-lmove (pending c) (inflight c) x (pending c) xs s (pending-ne-inflight c) e,
            lrange-lmove (pending c) (inflight c) x (inflight c) xs s (pending-ne-inflight c) e,
            apart,
            eq_refl,
            eq_refl,
            e,
            count-append,
          )
          (omega arith)
  ]

  pub pending-push :
      (x : String) (s : State) → lrange (pending c) (push R c x s) ≡ x ∷ lrange (pending c) s
  unfolding push
  pending-push x s = rw (lrange-lpush (pending c) x (pending c) s, eq_refl)

  pub inflight-push :
      (x : String) (s : State) → lrange (inflight c) (push R c x s) ≡ lrange (inflight c) s
  unfolding push
  inflight-push x s = rw (lrange-lpush (pending c) x (inflight c) s, apart)

  pub pending-requeue_drop :
      (x : String) (s : State) → lrange (pending c) (requeue_drop R c x s).1 ≡ lrange (pending c) s
  unfolding requeue_drop
  pending-requeue_drop x s = rw (lrange-lrem_first (inflight c) x (pending c) s, apart')

  pub inflight-requeue_drop :
      (x : String) (s : State)
      → lrange (inflight c) (requeue_drop R c x s).1 ≡ remove_first x (lrange (inflight c) s)
  unfolding requeue_drop
  inflight-requeue_drop x s = rw (lrange-lrem_first (inflight c) x (inflight c) s, eq_refl)

  pub removed-requeue_drop :
      (x : String) (s : State)
      → (requeue_drop R c x s).0 ≡ (if contains x (lrange (inflight c) s) then 1 else 0)
  unfolding requeue_drop
  removed-requeue_drop x s = lrem_first-count (inflight c) x s

  pub requeue_one-holdings :
      (now : ℕ) (job_id : String) (s : State) (k : String)
      → holdings R c k (requeue_one R c now job_id s).1 ≡ holdings R c k s
  unfolding requeue_one push
  requeue_one-holdings now job_id s k = ground (
    arith,
    eq_iff job_id k,
    pending-push job_id (requeue_drop R c job_id s).1,
    inflight-push job_id (requeue_drop R c job_id s).1,
    pending-requeue_drop job_id s,
    inflight-requeue_drop job_id s,
    removed-requeue_drop job_id s,
    count-remove_first job_id k (lrange (inflight c) s),
  )

  -- The loop of a reaper keeps the number of entries of every job, for whatever list of ids it
  -- goes through: also one that other workers' reservations and reapers have made stale.
  pub requeue_loop-holdings :
      (now : ℕ) (jobs : List String) (s : State) (k : String)
      → holdings R c k (requeue_loop R c now jobs s).1 ≡ holdings R c k s
  unfolding requeue_loop
  requeue_loop-holdings now [] s k = refl
  requeue_loop-holdings now (job_id ∷ jobs) s k =
      requeue_loop-holdings now jobs (requeue_one R c now job_id s).1 k
      ∙ requeue_one-holdings now job_id s k

  reserve_lease-holdings :
      (owner : String) (seconds now : ℕ) (o : Option String) (s : State) (k : String)
      → holdings R c k (reserve_lease R c owner seconds now o s) ≡ holdings R c k s
  unfolding reserve_lease
  reserve_lease-holdings owner seconds now none s k = refl
  reserve_lease-holdings owner seconds now (some j) s k = rw (
    lrange-set_ex now (lease_key c j) owner seconds (pending c) s,
    lrange-set_ex now (lease_key c j) owner seconds (inflight c) s,
  )

  -- A reservation keeps the number of entries of every job in the pending and inflight lists, and so
  -- does its first command alone, after which a crash may leave out the lease.
  pub reserve-holdings :
      (owner : String) (seconds now : ℕ) (s : State) (k : String)
      → (holdings R c k (reserve R c owner seconds now s).1 ≡ holdings R c k s)
        × (holdings R c k (reserve_move R c s).1 ≡ holdings R c k s)
  unfolding reserve
  reserve-holdings owner seconds now s k = (
    reserve_lease-holdings owner seconds now (reserve_move R c s).0 (reserve_move R c s).1 k
        ∙ reserve_move-holdings s k,
    reserve_move-holdings s k,
  )
