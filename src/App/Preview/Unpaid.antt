-- ===== src/App/Preview/Unpaid.antt =====
-- src/service/app.py: what a free preview leaves, and what its build can come to.
use app_generation_microserv.Base.{
  ℕ, String, ◌≡◌, refl, ap, subst, ◌∙◌, true, false, Option, none, some, eq_refl,
}
use app_generation_microserv.Base.Dict.{insert, lookup-insert}
use app_generation_microserv.Base.Json.{Fields}
use app_generation_microserv.Prd.{Prd}
use app_generation_microserv.Redis.{Redis}
use app_generation_microserv.RateLimit.{Source, check, client_identity}
use app_generation_microserv.Payments.Eip3009.{Libraries}
use app_generation_microserv.Payments.Verifier.{Nonces, Facilitator}
use app_generation_microserv.Queue.Memory.{push}
use app_generation_microserv.Jobs.{BuildJob, queued, create, get, save}
use app_generation_microserv.App.Settings.{Environment, generator_unusable}
use app_generation_microserv.App.Documents.{Pydantic, model_validate}
use app_generation_microserv.App.Accept.{
  Request, Service, accepted, State, Moment, marked, enqueued,
}
use app_generation_microserv.App.Preview.{
  previewed, after_budget, after_address, after_usable, create_preview,
}

module _ (R : Redis) (L : Libraries) (N : Nonces) (F : Facilitator L) (P : Service)
    (E : Environment) (D : Pydantic) where
  pub record IsPreview (body : Fields) (st : State R L N F) (job : BuildJob) (after : State R L N F)
      : Type 0 where
    pub prd : Prd
    pub validated : model_validate D body ≡ some prd
    pub unpaid : (job.paid ≡ false) × (job.preview ≡ true) × (job.settlement_tx ≡ none)
    pub fresh : (job.apk_path ≡ none) × (job.status ≡ queued)
    pub document : job.prd ≡ some (D.dump prd)
    pub stored : get job.id after.jobs ≡ some job
    pub queued_last : after.queue ≡ push job.id st.queue
    pub free : (after.nonces ≡ st.nonces) × (after.outside ≡ st.outside)

  accepted_injective : (a b : BuildJob) → accepted a ≡ accepted b → a ≡ b
  accepted_injective a b h = cc

  previewed-accepted :
      (m : Moment) (body : Fields) (o : Option Prd) (st : State R L N F) (job : BuildJob)
      → model_validate D body ≡ o
      → (previewed R L N F P E D m body o st).0 ≡ accepted job
      → IsPreview body st job (previewed R L N F P E D m body o st).1
  unfolding previewed get save create marked enqueued
  previewed-accepted m body none st job v h = cc
  previewed-accepted m body (some prd) st job v h =
      let first = (create m.id m.created prd.app_name (some (D.dump prd)) st.jobs).0 in
      let mine = marked R L N F P none false true first in
      subst (λ j. IsPreview body st j (previewed R L N F P E D m body (some prd) st).1)
        (accepted_injective mine job h)
        (record {
          prd = prd;
          validated = v;
          unpaid = (refl, refl, refl);
          fresh = (refl, refl);
          document = refl;
          stored = rw (lookup-insert m.id m.id mine (insert m.id first st.jobs), eq_refl) refl;
          queued_last = refl;
          free = (refl, refl);
        })

  -- The limiters before leave all but their windows.
  relaxed :
      (body : Fields) (st st' : State R L N F) (job : BuildJob) (after : State R L N F)
      → st'.queue ≡ st.queue
      → st'.nonces ≡ st.nonces
      → st'.outside ≡ st.outside
      → IsPreview body st' job after
      → IsPreview body st job after
  relaxed body st st' job after q n o p = record {
    prd = p.prd;
    validated = p.validated;
    unpaid = p.unpaid;
    fresh = p.fresh;
    document = p.document;
    stored = p.stored;
    queued_last = p.queued_last ∙ ap (push job.id) q;
    free = (p.free.0 ∙ n, p.free.1 ∙ o);
  }

  budget-accepted :
      (m : Moment) (body : Fields) (o : Option ℕ) (st : State R L N F) (job : BuildJob)
      → (after_budget R L N F P E D m body o st).0 ≡ accepted job
      → IsPreview body st job (after_budget R L N F P E D m body o st).1
  unfolding after_budget
  budget-accepted m body (some n) st job h = cc
  budget-accepted m body none st job h =
      previewed-accepted m body (model_validate D body) st job refl h

  address-accepted :
      (source : Source R) (m : Moment) (body : Fields) (o : Option ℕ) (st : State R L N F)
      (job : BuildJob)
      → (after_address R L N F P E D source m body o st).0 ≡ accepted job
      → IsPreview body st job (after_address R L N F P E D source m body o st).1
  unfolding after_address
  address-accepted source m body (some n) st job h = cc
  address-accepted source m body none st job h =
      let (o, windows, shared) =
        check R P.preview_budget source "all" m.arrived (st.preview_all, st.shared) in
      let st' : State R L N F = record st { preview_all = windows; shared = shared } in
      relaxed body st st' job (after_budget R L N F P E D m body o st').1 refl refl refl
        (budget-accepted m body o st' job h)

  usable-accepted :
      (source : Source R) (m : Moment) (r : Request) (body : Fields) (o : Option (Option String))
      (st : State R L N F) (job : BuildJob)
      → (after_usable R L N F P E D source m r body o st).0 ≡ accepted job
      → IsPreview body st job (after_usable R L N F P E D source m r body o st).1
  unfolding after_usable
  usable-accepted source m r body none st job h = cc
  usable-accepted source m r body (some (some detail)) st job h = cc
  usable-accepted source m r body (some none) st job h =
      let (o, windows, shared) =
        check R P.preview_limiter source (P.spell (client_identity r.forwarded_for r.peer))
          m.arrived (st.preview_ips, st.shared) in
      let st' : State R L N F = record st { preview_ips = windows; shared = shared } in
      relaxed body st st' job (after_address R L N F P E D source m body o st').1 refl refl refl
        (address-accepted source m body o st' job h)

  -- An accepted preview stores, and then queues, a record that is unpaid and marked as a preview and
  -- has no artifact and no receipt, whatever the document says of payment; nothing is charged.
  pub create_preview-accepted :
      (source : Source R) (m : Moment) (r : Request) (body : Fields) (st : State R L N F)
      (job : BuildJob)
      → (create_preview R L N F P E D source m r body st).0 ≡ accepted job
      → IsPreview body st job (create_preview R L N F P E D source m r body st).1
  unfolding create_preview
  create_preview-accepted source m r body st job h =
      usable-accepted source m r body (generator_unusable E) st job h
