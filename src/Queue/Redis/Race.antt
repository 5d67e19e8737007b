-- ===== src/Queue/Redis/Race.antt =====
-- src/service/queue.py: leases, several reapers, and a crash between two commands of a reaper.
use app_generation_microserv.Base.{
  ℕ, ◌+◌, ◌*◌, ◌≤◌, ◌<◌, String, ◌≡◌, refl, ◌∙◌, eq_iff, eq_refl, true, false, not, some, List, [],
  ◌∷◌, inl, inr, arith, eqb, count, contains, second, lt→ltb,
}
use app_generation_microserv.Redis.{Redis, count-remove_first, remove_first, until}
use app_generation_microserv.Queue.Redis.{
  RedisQueue, pending, inflight, lease_key, push, reserve, reserve_move, reserve_lease, held_at,
  requeue_drop, requeue_one, requeue_loop, holdings,
}
use app_generation_microserv.Queue.Redis.Conservation.{
  last_cases, pending-ne-inflight, pending-push, inflight-push, pending-requeue_drop,
  inflight-requeue_drop, removed-requeue_drop, requeue_loop-holdings,
}

contains-eq-count : (k : String) (xs : List String) → contains k xs ≡ not (eqb (count k xs) 0)
contains-eq-count k [] = refl
contains-eq-count k (x ∷ xs) = ground (arith, eq_iff x k, contains-eq-count k xs)

module _ (R : Redis) (c : RedisQueue) where
  open R use {
    State, lrange, get, lmove, set_ex, get-set_ex, lrange-set_ex, lmove-empty, lmove-last,
    lrange-lmove,
  }

  -- For a job with one entry in the inflight list and none in the pending list: after the LREM of a
  -- reaper, and before its LPUSH, neither list holds the job, and whatever another reaper then goes
  -- through, neither list holds it afterwards. So a reaper that dies there has lost the job.
  pub requeue_drop-holdings_lost :
      (k : String) (s : State) (now : ℕ) (jobs : List String)
      → count k (lrange (inflight c) s) ≡ 1
      → count k (lrange (pending c) s) ≡ 0
      → holdings R c k (requeue_loop R c now jobs (requeue_drop R c k s).1).1 ≡ 0
  requeue_drop-holdings_lost k s now jobs one free =
      requeue_loop-holdings R c now jobs (requeue_drop R c k s).1 k
      ∙ ground (
        arith,
        eq_iff k k,
        pending-requeue_drop R c k s,
        inflight-requeue_drop R c k s,
        count-remove_first k k (lrange (inflight c) s),
        contains-eq-count k (lrange (inflight c) s),
      )

  -- Of two reapers that go for the same job, whose one inflight entry has no lease, only the first
  -- puts it back: if the first did, the second, whatever its clock says, does not.
  pub requeue_one_once :
      (now now' : ℕ) (k : String) (s : State)
      → count k (lrange (inflight c) s) ≡ 1
      → (requeue_one R c now k s).0 ≡ true
      → (requeue_one R c now' k (requeue_one R c now k s).1).0 ≡ false
  unfolding requeue_one push
  requeue_one_once now now' k s one first = ground (
    arith,
    eq_iff k k,
    inflight-requeue_drop R c k s,
    inflight-push R c k (requeue_drop R c k s).1,
    removed-requeue_drop R c k s,
    removed-requeue_drop R c k (push R c k (requeue_drop R c k s).1),
    count-remove_first k k (lrange (inflight c) s),
    contains-eq-count k (lrange (inflight c) s),
    contains-eq-count k (remove_first k (lrange (inflight c) s)),
  )

  -- what a reservation that returned a job has read
  reserved_from :
      (owner k : String) (seconds now : ℕ) (s : State)
      → (reserve R c owner seconds now s).0 ≡ some k
      → (reserve R c owner seconds now s).1
        ≡ set_ex now (lease_key c k) owner seconds (lmove (pending c) (inflight c) s).1
  unfolding reserve reserve_move reserve_lease
  reserved_from owner k seconds now s e = rw (e, reserve_lease)

  held_at-reserve :
      (owner k : String) (seconds now t : ℕ) (s : State)
      → now ≤ t
      → (reserve R c owner seconds now s).0 ≡ some k
      → held_at R c k t (reserve R c owner seconds now s).1 ≡ until (now + seconds * second) t owner
  unfolding held_at
  held_at-reserve owner k seconds now t s later e = rw (
    reserved_from owner k seconds now s e,
    get-set_ex now (lease_key c k) owner seconds t (lease_key c k)
        (lmove (pending c) (inflight c) s).1 later,
    eq_refl,
  )

  -- Until the lease of a job just reserved has run out, a reaper leaves the job where it is.
  pub requeue_one-reserve :
      (owner k : String) (seconds now t : ℕ) (s : State)
      → now ≤ t
      → t < now + seconds * second
      → (reserve R c owner seconds now s).0 ≡ some k
      → let s' = (reserve R c owner seconds now s).1 in requeue_one R c t k s' ≡ (false, s')
  unfolding requeue_one held_at
  requeue_one-reserve owner k seconds now t s later live e =
      rw (held_at-reserve owner k seconds now t s later e, lt→ltb t _ live)

  moved_to_inflight :
      (k : String) (s : State)
      → (lmove (pending c) (inflight c) s).0 ≡ some k
      → contains k (lrange (inflight c) (lmove (pending c) (inflight c) s).1) ≡ true
  moved_to_inflight k s e = elim (last_cases (lrange (pending c) s)) [
    | inl free ↦ cc (e, lmove-empty (pending c) (inflight c) s free)
    | inr (xs, x, full) ↦ ground (
      arith,
      eq_iff x k,
      eq_iff (inflight c) (inflight c),
      eq_iff (pending c) (inflight c),
      pending-ne-inflight c,
      lmove-last (pending c) (inflight c) x xs s full,
      lrange-lmove (pending c) (inflight c) x (inflight c) xs s (pending-ne-inflight c) full,
    )
  ]

  inflight-reserve :
      (owner k : String) (seconds now : ℕ) (s : State)
      → (reserve R c owner seconds now s).0 ≡ some k
      → contains k (lrange (inflight c) (reserve R c owner seconds now s).1) ≡ true
  inflight-reserve owner k seconds now s e =
      rw
        (
          reserved_from owner k seconds now s e,
          lrange-set_ex now (lease_key c k) owner seconds (inflight c)
              (lmove (pending c) (inflight c) s).1,
        )
        (moved_to_inflight k s (unfold reserve reserve_move in e))

  -- Once the lease of a reserved job has run out unrenewed, a reaper takes the job out of the
  -- inflight list and puts it at the newest end of the pending list.
  pub requeue_one-reserve_lapsed :
      (owner k : String) (seconds now t : ℕ) (s : State)
      → now + seconds * second ≤ t
      → (reserve R c owner seconds now s).0 ≡ some k
      → let s' = (reserve R c owner seconds now s).1 in
        let (moved, s'') = requeue_one R c t k s' in
        (moved ≡ true)
        × (lrange (pending c) s'' ≡ k ∷ lrange (pending c) s')
        × (lrange (inflight c) s'' ≡ remove_first k (lrange (inflight c) s'))
  unfolding requeue_one held_at push
  requeue_one-reserve_lapsed owner k seconds now t s late e =
      let s' = (reserve R c owner seconds now s).1 in
      ground (
        arith,
        held_at-reserve owner k seconds now t s (omega arith) e,
        inflight-reserve owner k seconds now s e,
        pending-push R c k (requeue_drop R c k s').1,
        inflight-push R c k (requeue_drop R c k s').1,
        pending-requeue_drop R c k s',
        inflight-requeue_drop R c k s',
        removed-requeue_drop R c k s',
      )
