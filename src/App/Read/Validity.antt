-- ===== src/App/Read/Validity.antt =====
-- src/service/app.py: `validate` against the validation of `create_build`.
use app_generation_microserv.Base.{
  ℕ, String, ◌≡◌, ◌≢◌, refl, Bool, true, false, Option, none, some, List,
}
use app_generation_microserv.Base.Json.{bool, Fields, get}
use app_generation_microserv.Prd.{Prd}
use app_generation_microserv.Redis.{Redis}
use app_generation_microserv.RateLimit.{Source}
use app_generation_microserv.Payments.Eip3009.{Libraries}
use app_generation_microserv.Payments.Verifier.{Nonces, Facilitator}
use app_generation_microserv.App.Settings.{Environment, generator_unusable}
use app_generation_microserv.App.Documents.{Pydantic, model_validate}
use app_generation_microserv.App.Accept.{
  Request, Service, invalid, State, Moment, settle_by, after_settle, after_validation, after_check,
  after_limit, create_build,
}
use app_generation_microserv.App.Accept.Charging.{limited}
use app_generation_microserv.App.Read.{verdict_on, validate}

module _ (P : Service) (D : Pydantic) where
  verdict_on-valid :
      (lines : String → List String) (error : String) (o : Option Prd)
      → get "valid" (verdict_on P lines error o) ≡ some (bool true)
      → (prd : Prd) × (o ≡ some prd)
  verdict_on-valid lines error none h = cc
  verdict_on-valid lines error (some prd) h = (prd, refl)

  validate-valid :
      (lines : String → List String) (body : Fields)
      → get "valid" (validate P D lines body) ≡ some (bool true)
      → (prd : Prd) × (model_validate D body ≡ some prd)
  unfolding validate
  validate-valid lines body h = verdict_on-valid lines (D.error body) (model_validate D body) h

module _ (R : Redis) (L : Libraries) (N : Nonces) (F : Facilitator L) (P : Service)
    (E : Environment) (D : Pydantic) (others : State R L N F → State R L N F) where
  settled-valid :
      (m : Moment) (r : Request) (prd : Prd) (o : Option Bool × State R L N F) (detail : String)
      → (after_settle R L N F P E D others m r prd o).0 ≢ invalid detail
  unfolding after_settle
  settled-valid m r prd (none, st) detail h = cc
  settled-valid m r prd (some false, st) detail h = cc
  settled-valid m r prd (some true, st) detail h = cc

  check-valid :
      (m : Moment) (r : Request) (body : Fields) (prd : Prd) (o : Option (Option String))
      (st : State R L N F) (detail : String)
      → model_validate D body ≡ some prd
      → (after_check R L N F P E D others m r body o st).0 ≢ invalid detail
  unfolding after_check after_validation
  check-valid m r body prd none st detail v h = cc
  check-valid m r body prd (some (some e)) st detail v h = cc
  check-valid m r body prd (some none) st detail v h =
      settled-valid m r prd (settle_by R L N F P P.verifier m r.x_payment st) detail (rw v at h)

  limit-valid :
      (m : Moment) (r : Request) (body : Fields) (prd : Prd) (o : Option ℕ) (st : State R L N F)
      (detail : String)
      → model_validate D body ≡ some prd
      → (after_limit R L N F P E D others m r body o st).0 ≢ invalid detail
  unfolding after_limit
  limit-valid m r body prd (some n) st detail v h = cc
  limit-valid m r body prd none st detail v h =
      check-valid m r body prd (generator_unusable E) st detail v h

  -- A document that the free check calls valid is never rejected as invalid by the paid route.
  pub validate-agrees :
      (lines : String → List String) (source : Source R) (m : Moment) (r : Request) (body : Fields)
      (st : State R L N F) (detail : String)
      → get "valid" (validate P D lines body) ≡ some (bool true)
      → (create_build R L N F P E D others source m r body st).0 ≢ invalid detail
  unfolding create_build
  validate-agrees lines source m r body st detail valid =
      let (prd, v) = validate-valid P D lines body valid in
      limit-valid m r body prd (limited R L N F P E D others source m r st).0
        (limited R L N F P E D others source m r st).1 detail v
