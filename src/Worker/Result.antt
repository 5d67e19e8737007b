-- ===== src/Worker/Result.antt =====
-- src/service/worker.py: what an execution leaves.
use app_generation_microserv.Base.{
  ℕ, ◌+◌, ◌*◌, String, ◌≡◌, refl, inl, inr, eq_refl, true, some, List, [], ◌∷◌, arith, Bool-cases,
  second,
}
use app_generation_microserv.Base.Dict.{lookup, lookup-insert}
use app_generation_microserv.Queue.Memory.{MemoryQueue, renew, refused}
use app_generation_microserv.Jobs.{get, save}
use app_generation_microserv.Worker.{Worker, Service, Beat, concluded, execute}

pub renew_held :
    (job_id owner : String) (seconds now : ℕ) (q : MemoryQueue)
    → (renew job_id owner seconds now q).0 ≡ true
    → lookup job_id (renew job_id owner seconds now q).1.leases
      ≡ some (record { owner = owner; expires = now + seconds * second })
unfolding renew
renew_held job_id owner seconds now q h =
    elim (Bool-cases (refused (lookup job_id q.leases) owner)) [
      | inl lost ↦ absurd (ground (arith, lost, h))
      | inr held ↦
          rw
            (
              held,
              lookup-insert job_id job_id
                  (record { owner = owner; expires = now + seconds * second }) q.leases,
              eq_refl,
            )
            refl
    ]

-- An execution that reports success has renewed the lease of its worker at its end, and has written
-- the record that the build left, with the time at which it finished.
pub execute_recorded :
    (w : Worker) (job_id : String) (beats : List Beat) (last : Beat) (s : Service)
    → (execute w job_id beats last s).0 ≡ true
    → (lookup job_id (execute w job_id beats last s).1.queue.leases
        ≡ some (record { owner = w.owner; expires = last.now + w.lease_seconds * second }))
      × (get last.job.id (execute w job_id beats last s).1.jobs
          ≡ some (concluded last.now last.job))
unfolding execute get save concluded
execute_recorded w job_id [] last s h =
    elim (Bool-cases ((renew job_id w.owner w.lease_seconds last.now (last.others s).queue).0)) [
      | inr lost ↦ absurd (ground (arith, lost, h))
      | inl held ↦ rw held (
        renew_held job_id w.owner w.lease_seconds last.now (last.others s).queue held,
        rw
            (
              lookup-insert last.job.id last.job.id (concluded last.now last.job)
                  (last.others s).jobs,
              eq_refl,
            )
            refl,
      )
    ]
execute_recorded w job_id (b ∷ beats) last s h =
    elim (Bool-cases ((renew job_id w.owner w.lease_seconds b.now (b.others s).queue).0)) [
      | inr lost ↦ absurd (ground (arith, lost, h))
      | inl held ↦ rw held (execute_recorded w job_id beats last _ (rw held at h))
    ]
