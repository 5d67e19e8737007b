-- ===== src/App/Stored.antt =====
-- src/service/app.py: what the worker finds under the ids that `create_build` has queued.
use app_generation_microserv.Base.{
  ℕ, String, ◌≡◌, refl, ap, ◌∙◌, Bool, true, false, Option, none, some, List, [], ◌∷◌, ◌++◌, all,
  arith, eq_iff,
}
use app_generation_microserv.Base.Dict.{lookup, insert, lookup-insert}
use app_generation_microserv.Base.Json.{Fields}
use app_generation_microserv.Prd.{Prd}
use app_generation_microserv.Redis.{Redis}
use app_generation_microserv.RateLimit.{Source}
use app_generation_microserv.Payments.Eip3009.{Libraries}
use app_generation_microserv.Payments.Verifier.{Nonces, Facilitator}
use app_generation_microserv.Queue.Memory.{MemoryQueue, push}
use app_generation_microserv.Jobs.{BuildJob, JobStore, create, save}
use app_generation_microserv.App.Settings.{Environment, generator_unusable}
use app_generation_microserv.App.Documents.{Pydantic, model_validate}
use app_generation_microserv.App.Accept.{
  Request, Service, State, Moment, receipt, settle_by, marked, enqueued, after_settle,
  after_validation, after_check, after_limit, create_build,
}
use app_generation_microserv.App.Accept.Charging.{limited, paid_stage}
use app_generation_microserv.App.Accept.Buildable.{dumped-buildable}
use app_generation_microserv.App.Work.{Factory, build, build_work}

abbrev pub is_built : Factory → Bool
is_built (build prd) = true
is_built _ = false

module _ (D : Pydantic) where
  -- a record that the worker's factory does not refuse
  abbrev pub is_ready : Option BuildJob → Bool
  is_ready none = false
  is_ready (some job) = is_built (build_work D job)

  abbrev pub are_ready : List String → JobStore → Bool
  are_ready ids jobs = all (λ k. is_ready (lookup k jobs)) ids

  -- A record that is saved twice, and is ready at last, spoils no id.
  are_ready-saved :
      (ids : List String) (k : String) (first job : BuildJob) (jobs : JobStore)
      → is_ready (some job) ≡ true
      → are_ready ids jobs ≡ true
      → are_ready ids (insert k job (insert k first jobs)) ≡ true
  are_ready-saved [] k first job jobs r h = refl
  are_ready-saved (i ∷ ids) k first job jobs r h = ground (
    arith,
    lookup-insert k i job (insert k first jobs),
    lookup-insert k i first jobs,
    are_ready-saved ids k first job jobs r,
    h,
  )

  are_ready-last :
      (ids : List String) (k : String) (jobs : JobStore)
      → are_ready ids jobs ≡ true
      → is_ready (lookup k jobs) ≡ true
      → are_ready (ids ++ k ∷ []) jobs ≡ true
  are_ready-last [] k jobs h e = rw e refl
  are_ready-last (i ∷ ids) k jobs h e = ground (arith, h, are_ready-last ids k jobs, e)

module _ (R : Redis) (L : Libraries) (N : Nonces) (F : Facilitator L) (P : Service)
    (D : Pydantic) where
  abbrev pub IsStored : State R L N F → Type 0
  IsStored st = are_ready D st.queue.pending st.jobs ≡ true

  enqueued-IsStored :
      (first job : BuildJob) (st : State R L N F)
      → is_ready D (some job) ≡ true
      → IsStored st
      → IsStored (enqueued R L N F P job (record st { jobs = insert job.id first st.jobs }))
  unfolding enqueued save push
  enqueued-IsStored first job st r h =
      let jobs = insert job.id job (insert job.id first st.jobs) in
      are_ready-last D st.queue.pending job.id jobs
        (are_ready-saved D st.queue.pending job.id first job st.jobs r h)
        (ground (
          arith,
          lookup-insert job.id job.id job (insert job.id first st.jobs),
          eq_iff job.id job.id,
          r,
        ))

  module _ (E : Environment) (others : State R L N F → State R L N F) where
    settle-IsStored :
        (m : Moment) (r : Request) (body : Fields) (prd : Prd) (o : Option Bool × State R L N F)
        → model_validate D body ≡ some prd
        → ((st : State R L N F) → IsStored st → IsStored (others st))
        → IsStored o.1
        → IsStored (after_settle R L N F P E D others m r prd o).1
    unfolding after_settle create marked
    settle-IsStored m r body prd (none, c) v kept h = h
    settle-IsStored m r body prd (some false, c) v kept h = h
    settle-IsStored m r body prd (some true, c) v kept h =
        let st = others c in
        let first = (create m.id m.created prd.app_name (some (D.dump prd)) st.jobs).0 in
        let mine = marked R L N F P (receipt R L N F P P.verifier st) true false first in
        let ready : is_ready D (some mine) ≡ true =
          ap is_built (dumped-buildable D body prd mine v refl refl) in
        enqueued-IsStored first mine st ready (kept c h)

    charged-IsStored :
        (m : Moment) (header : Option String) (st : State R L N F)
        → IsStored st
        → IsStored (settle_by R L N F P P.verifier m header st).1
    charged-IsStored m header st h =
        let st' = (settle_by R L N F P P.verifier m header st).1 in
        let (j, q) = paid_stage R L N F P E D others P.verifier m header st in
        ap (λ (q : MemoryQueue). are_ready D q.pending st'.jobs) q
        ∙ ap (λ jobs. are_ready D st.queue.pending jobs) j
        ∙ h

    validated-IsStored :
        (m : Moment) (r : Request) (body : Fields) (o : Option Prd) (st : State R L N F)
        → model_validate D body ≡ o
        → ((st : State R L N F) → IsStored st → IsStored (others st))
        → IsStored st
        → IsStored (after_validation R L N F P E D others m r body o st).1
    unfolding after_validation
    validated-IsStored m r body none st v kept h = h
    validated-IsStored m r body (some prd) st v kept h =
        settle-IsStored m r body prd (settle_by R L N F P P.verifier m r.x_payment st) v kept
          (charged-IsStored m r.x_payment st h)

    usable-IsStored :
        (m : Moment) (r : Request) (body : Fields) (o : Option (Option String)) (st : State R L N F)
        → ((st : State R L N F) → IsStored st → IsStored (others st))
        → IsStored st
        → IsStored (after_check R L N F P E D others m r body o st).1
    unfolding after_check
    usable-IsStored m r body none st kept h = h
    usable-IsStored m r body (some (some detail)) st kept h = h
    usable-IsStored m r body (some none) st kept h =
        validated-IsStored m r body (model_validate D body) st refl kept h

    limit-IsStored :
        (m : Moment) (r : Request) (body : Fields) (o : Option ℕ) (st : State R L N F)
        → ((st : State R L N F) → IsStored st → IsStored (others st))
        → IsStored st
        → IsStored (after_limit R L N F P E D others m r body o st).1
    unfolding after_limit
    limit-IsStored m r body (some n) st kept h = h
    limit-IsStored m r body none st kept h =
        usable-IsStored m r body (generator_unusable E) st kept h

    -- If every queued id has a record that the worker's factory does not refuse, it has one after a
    -- request for a build too, whatever the answer, if what other requests do before the receipt is
    -- read keeps this.
    pub create_build-IsStored :
        (source : Source R) (m : Moment) (r : Request) (body : Fields) (st : State R L N F)
        → ((st : State R L N F) → IsStored st → IsStored (others st))
        → IsStored st
        → IsStored (create_build R L N F P E D others source m r body st).1
    unfolding create_build
    create_build-IsStored source m r body st kept h =
        limit-IsStored m r body (limited R L N F P E D others source m r st).0
          (limited R L N F P E D others source m r st).1 kept h
