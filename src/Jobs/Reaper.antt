-- ===== src/Jobs/Reaper.antt =====
-- src/service/jobs.py: what `reap_stale` leaves.
use app_generation_microserv.Base.{
  ℕ, ◌+◌, ◌≤◌, ◌<◌, String, ◌==◌, ◌≡◌, refl, ◌⊎◌, inl, inr, eq_refl, true, false, some, arith, leb,
  Bool-cases,
}
use app_generation_microserv.Base.Dict.{lookup-insert}
use app_generation_microserv.Jobs.{
  failed, BuildJob, JobStore, get, save, is_open, last_seen, stale_after, abandoned, reap_stale,
}

abbrev pub IsSilent : ℕ → BuildJob → Type 0
IsSilent moment job = (is_open job.status ≡ true) × (last_seen job + stale_after < moment)

abbrev pub IsLive : ℕ → BuildJob → Type 0
IsLive moment job = (is_open job.status ≡ false) ⊎ (moment ≤ last_seen job + stale_after)

reaped :
    (moment later : ℕ) (job : BuildJob) (store : JobStore)
    → get job.id store ≡ some job
    → let (job', store') = reap_stale moment job store in
      ((IsLive moment job × (job' ≡ job) × (store' ≡ store))
        ⊎ (IsSilent moment job
            × (job'.status ≡ failed)
            × (job'.finished_at ≡ some moment)
            × (reap_stale later job' store' ≡ (job', store'))))
      × (get job.id store' ≡ some job')
unfolding reap_stale abandoned get save
reaped moment later job store held = elim (Bool-cases (is_open job.status)) [
  | inr closed ↦ rw closed (inl (inl refl, refl, refl), held)
  | inl open_still ↦ elim (Bool-cases (leb moment (last_seen job + stale_after))) [
    | inl fresh ↦ rw (open_still, fresh) (inl (inr (ground (arith, fresh)), refl, refl), held)
    | inr stale ↦
        rw (open_still, stale)
          (
            inr ((refl, ground (arith, stale)), refl, refl, refl),
            rw (lookup-insert job.id job.id (abandoned moment job) store, eq_refl) refl,
          )
  ]
]

-- A reaper changes no record but that of its job.
reap_stale_others :
    (moment : ℕ) (job : BuildJob) (store : JobStore) (id : String)
    → (job.id == id) ≡ false
    → get id (reap_stale moment job store).1 ≡ get id store
unfolding reap_stale get save
reap_stale_others moment job store id other =
    ground (arith, other, lookup-insert job.id id (abandoned moment job) store)

-- A reaper that finds a stored job leaves it and the store as they are where the job is finished or
-- was seen within the last half hour. It fails the job, at that moment, exactly where it is open and
-- was last seen before that, and a second reaper, at any time, then has nothing to do. Either way
-- the store holds what was returned, and every other record is as it was.
pub reap_stale_settles :
    (moment later : ℕ) (job : BuildJob) (store : JobStore) (other : String)
    → get job.id store ≡ some job
    → (job.id == other) ≡ false
    → let (job', store') = reap_stale moment job store in
      ((IsLive moment job × (job' ≡ job) × (store' ≡ store))
        ⊎ (IsSilent moment job
            × (job'.status ≡ failed)
            × (job'.finished_at ≡ some moment)
            × (reap_stale later job' store' ≡ (job', store'))))
      × (get job.id store' ≡ some job')
      × (get other store' ≡ get other store)
reap_stale_settles moment later job store other held different =
    let (outcome, stored) = reaped moment later job store held in
    (outcome, stored, reap_stale_others moment job store other different)
