-- ===== src/App/Accept/Charging.antt =====
-- src/service/app.py: what `create_build` has done by the time it answers.
use app_generation_microserv.Base.{
  ℕ, String, ◌≡◌, refl, subst, Bool, true, false, Option, none, some, eq_refl,
}
use app_generation_microserv.Base.Dict.{insert, lookup-insert}
use app_generation_microserv.Base.Json.{Fields}
use app_generation_microserv.Prd.{Prd}
use app_generation_microserv.Redis.{Redis}
use app_generation_microserv.RateLimit.{Source, check, client_identity}
use app_generation_microserv.Payments.Eip3009.{Libraries}
use app_generation_microserv.Payments.Verifier.{Nonces, Facilitator}
use app_generation_microserv.Queue.Memory.{push}
use app_generation_microserv.Jobs.{BuildJob, queued, create, get, save}
use app_generation_microserv.App.Settings.{Environment, generator_unusable}
use app_generation_microserv.App.Documents.{Pydantic, model_validate}
use app_generation_microserv.App.Accept.{
  Request, Service, Response, too_many, unusable, invalid, payment_required, accepted,
  internal_error, State, Moment, settle_by, receipt, Verifier, x402, dev, refusing, marked,
  enqueued, after_settle, after_validation, after_check, after_limit, create_build,
}

module _ (R : Redis) (L : Libraries) (N : Nonces) (F : Facilitator L) (P : Service)
    (E : Environment) (D : Pydantic) (others : State R L N F → State R L N F) where
  -- the state after the limiter
  abbrev pub limited : Source R → Moment → Request → State R L N F → Option ℕ × State R L N F
  limited source m r st =
      let (retry_after, windows, shared) =
        check R P.limiter source (P.spell (client_identity r.forwarded_for r.peer)) m.arrived
          (st.builds, st.shared) in
      (retry_after, record st { builds = windows; shared = shared })

  -- The state `charged` is the one that the verifier was asked in, and left.
  pub record IsAccepted (source : Source R) (m : Moment) (r : Request) (body : Fields)
      (st : State R L N F) (job : BuildJob) (after : State R L N F) : Type 0 where
    pub prd : Prd
    pub charged : State R L N F
    pub admitted : (limited source m r st).0 ≡ none
    pub usable : generator_unusable E ≡ some none
    pub validated : model_validate D body ≡ some prd
    pub settled :
        settle_by R L N F P P.verifier m r.x_payment (limited source m r st).1
        ≡ (some true, charged)
    pub stored : get job.id after.jobs ≡ some job
    pub queued_last : after.queue ≡ push job.id (others charged).queue
    pub is_paid : (job.paid ≡ true) × (job.preview ≡ false) × (job.status ≡ queued)
    pub document : job.prd ≡ some (D.dump prd)
    pub receipt_read : job.settlement_tx ≡ receipt R L N F P P.verifier (others charged)

  accepted_injective : (a b : BuildJob) → accepted a ≡ accepted b → a ≡ b
  accepted_injective a b h = cc

  settle-accepted :
      (source : Source R) (m : Moment) (r : Request) (body : Fields) (st : State R L N F)
      (job : BuildJob) (prd : Prd) (o : Option Bool × State R L N F)
      → (limited source m r st).0 ≡ none
      → generator_unusable E ≡ some none
      → model_validate D body ≡ some prd
      → settle_by R L N F P P.verifier m r.x_payment (limited source m r st).1 ≡ o
      → (after_settle R L N F P E D others m r prd o).0 ≡ accepted job
      → IsAccepted source m r body st job (after_settle R L N F P E D others m r prd o).1
  unfolding after_settle get save create marked enqueued
  settle-accepted source m r body st job prd (none, c) a u v s h = cc
  settle-accepted source m r body st job prd (some false, c) a u v s h = cc
  settle-accepted source m r body st job prd (some true, c) a u v s h =
      let first = (create m.id m.created prd.app_name (some (D.dump prd)) (others c).jobs).0 in
      let mine = marked R L N F P (receipt R L N F P P.verifier (others c)) true false first in
      subst
        (λ j.
          IsAccepted source m r body st j
            (after_settle R L N F P E D others m r prd (some true, c)).1)
        (accepted_injective mine job h)
        (record {
          prd = prd;
          charged = c;
          admitted = a;
          usable = u;
          validated = v;
          settled = s;
          stored =
              rw (lookup-insert m.id m.id mine (insert m.id first (others c).jobs), eq_refl) refl;
          queued_last = refl;
          is_paid = (refl, refl, refl);
          document = refl;
          receipt_read = refl;
        })

  validation-accepted :
      (source : Source R) (m : Moment) (r : Request) (body : Fields) (st : State R L N F)
      (job : BuildJob) (o : Option Prd)
      → (limited source m r st).0 ≡ none
      → generator_unusable E ≡ some none
      → model_validate D body ≡ o
      → (after_validation R L N F P E D others m r body o (limited source m r st).1).0
        ≡ accepted job
      → IsAccepted source m r body st job
          (after_validation R L N F P E D others m r body o (limited source m r st).1).1
  unfolding after_validation
  validation-accepted source m r body st job none a u v h = cc
  validation-accepted source m r body st job (some prd) a u v h =
      settle-accepted source m r body st job prd
        (settle_by R L N F P P.verifier m r.x_payment (limited source m r st).1) a u v refl h

  check-accepted :
      (source : Source R) (m : Moment) (r : Request) (body : Fields) (st : State R L N F)
      (job : BuildJob) (o : Option (Option String))
      → (limited source m r st).0 ≡ none
      → generator_unusable E ≡ o
      → (after_check R L N F P E D others m r body o (limited source m r st).1).0 ≡ accepted job
      → IsAccepted source m r body st job
          (after_check R L N F P E D others m r body o (limited source m r st).1).1
  unfolding after_check
  check-accepted source m r body st job none a u h = cc
  check-accepted source m r body st job (some (some detail)) a u h = cc
  check-accepted source m r body st job (some none) a u h =
      validation-accepted source m r body st job (model_validate D body) a u refl h

  limit-accepted :
      (source : Source R) (m : Moment) (r : Request) (body : Fields) (st : State R L N F)
      (job : BuildJob) (o : Option ℕ)
      → (limited source m r st).0 ≡ o
      → (after_limit R L N F P E D others m r body o (limited source m r st).1).0 ≡ accepted job
      → IsAccepted source m r body st job
          (after_limit R L N F P E D others m r body o (limited source m r st).1).1
  unfolding after_limit
  limit-accepted source m r body st job (some n) a h = cc
  limit-accepted source m r body st job none a h =
      check-accepted source m r body st job (generator_unusable E) a refl h

  -- A build is accepted only for a caller within the limit, by a deployment that can build, for a
  -- valid document, after the verifier has settled the header of the request. The record that is
  -- stored is marked as paid, holds the document and the receipt that the verifier has when it is
  -- read, which is the payment's if no other request settled in between, and its id is in the queue,
  -- behind what was there.
  pub create_build-accepted :
      (source : Source R) (m : Moment) (r : Request) (body : Fields) (st : State R L N F)
      (job : BuildJob)
      → (create_build R L N F P E D others source m r body st).0 ≡ accepted job
      → IsAccepted source m r body st job (create_build R L N F P E D others source m r body st).1
  unfolding create_build
  create_build-accepted source m r body st job h =
      limit-accepted source m r body st job (limited source m r st).0 refl h

  -- The same job store and queue; and the same nonce store and facilitator too.
  abbrev pub IsKept : State R L N F → State R L N F → Type 0
  IsKept st after = (after.jobs ≡ st.jobs) × (after.queue ≡ st.queue)

  abbrev pub IsUncharged : State R L N F → State R L N F → Type 0
  IsUncharged st after = IsKept st after × (after.nonces ≡ st.nonces) × (after.outside ≡ st.outside)

  -- what an answer other than an acceptance leaves as it was
  abbrev pub IsUntouched : State R L N F → Response → State R L N F → Type 0
  IsUntouched st (too_many l n) after = IsUncharged st after
  IsUntouched st (unusable detail) after = IsUncharged st after
  IsUntouched st (invalid detail) after = IsUncharged st after
  IsUntouched st (payment_required terms) after = IsKept st after
  IsUntouched st internal_error after = IsKept st after
  IsUntouched st (accepted job) after = Unit

  -- The verifier touches neither the records nor the queue.
  pub paid_stage :
      (v : Verifier) (m : Moment) (header : Option String) (st : State R L N F)
      → ((settle_by R L N F P v m header st).1.jobs ≡ st.jobs)
        × ((settle_by R L N F P v m header st).1.queue ≡ st.queue)
  unfolding settle_by
  paid_stage (x402 c) m header st = (refl, refl)
  paid_stage (dev d secret) m header st = (refl, refl)
  paid_stage refusing m header st = (refl, refl)

  settle-IsUntouched :
      (m : Moment) (r : Request) (prd : Prd) (st : State R L N F) (o : Option Bool × State R L N F)
      → o.1.jobs ≡ st.jobs
      → o.1.queue ≡ st.queue
      → IsUntouched st
          (after_settle R L N F P E D others m r prd o).0
          (after_settle R L N F P E D others m r prd o).1
  unfolding after_settle
  settle-IsUntouched m r prd st (none, c) j q = (j, q)
  settle-IsUntouched m r prd st (some false, c) j q = (j, q)
  settle-IsUntouched m r prd st (some true, c) j q = tt

  validation-IsUntouched :
      (m : Moment) (r : Request) (body : Fields) (o : Option Prd) (st : State R L N F)
      → IsUntouched st
          (after_validation R L N F P E D others m r body o st).0
          (after_validation R L N F P E D others m r body o st).1
  unfolding after_validation
  validation-IsUntouched m r body none st = ((refl, refl), refl, refl)
  validation-IsUntouched m r body (some prd) st =
      let (j, q) = paid_stage P.verifier m r.x_payment st in
      settle-IsUntouched m r prd st (settle_by R L N F P P.verifier m r.x_payment st) j q

  check-IsUntouched :
      (m : Moment) (r : Request) (body : Fields) (o : Option (Option String)) (st : State R L N F)
      → IsUntouched st
          (after_check R L N F P E D others m r body o st).0
          (after_check R L N F P E D others m r body o st).1
  unfolding after_check
  check-IsUntouched m r body none st = (refl, refl)
  check-IsUntouched m r body (some (some detail)) st = ((refl, refl), refl, refl)
  check-IsUntouched m r body (some none) st =
      validation-IsUntouched m r body (model_validate D body) st

  limit-IsUntouched :
      (m : Moment) (r : Request) (body : Fields) (o : Option ℕ) (st : State R L N F)
      → IsUntouched st
          (after_limit R L N F P E D others m r body o st).0
          (after_limit R L N F P E D others m r body o st).1
  unfolding after_limit
  limit-IsUntouched m r body (some n) st = ((refl, refl), refl, refl)
  limit-IsUntouched m r body none st = check-IsUntouched m r body (generator_unusable E) st

  -- A request that is not accepted, whatever the reason, stores no record and queues no build; and
  -- one that is refused for its rate, the deployment's configuration or its document claims no nonce
  -- and sends nothing to the facilitator.
  pub create_build-IsUntouched :
      (source : Source R) (m : Moment) (r : Request) (body : Fields) (st : State R L N F)
      → IsUntouched st
          (create_build R L N F P E D others source m r body st).0
          (create_build R L N F P E D others source m r body st).1
  unfolding create_build
  create_build-IsUntouched source m r body st =
      limit-IsUntouched m r body (limited source m r st).0 (limited source m r st).1
