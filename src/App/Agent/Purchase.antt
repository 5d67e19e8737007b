-- ===== src/App/Agent/Purchase.antt =====
-- src/service/app.py: what an agent that is told it has paid has bought.
use app_generation_microserv.Base.{String, ◌≡◌, refl, true, Option, none, some}
use app_generation_microserv.Base.Json.{Value, bool, obj, Fields, get}
use app_generation_microserv.Redis.{Redis}
use app_generation_microserv.RateLimit.{Source}
use app_generation_microserv.Payments.Eip3009.{Libraries}
use app_generation_microserv.Payments.Verifier.{Nonces, Facilitator}
use app_generation_microserv.Jobs.{BuildJob}
use app_generation_microserv.Mcp.{Ran, output}
use app_generation_microserv.App.Settings.{Environment}
use app_generation_microserv.App.Documents.{Pydantic}
use app_generation_microserv.App.Accept.{
  Request, Service, Response, too_many, unusable, invalid, payment_required, accepted,
  internal_error, State, Moment, create_build,
}
use app_generation_microserv.App.Accept.Charging.{IsAccepted, create_build-accepted}
use app_generation_microserv.App.Agent.{not_paid, answered, start_build_for_agent}

-- what a tool's result says of a key
abbrev pub says : String → Ran → Option Value
says key (output (obj fs)) = get key fs
says key _ = none

answered-paid :
    (base exc : String) (response : Response)
    → says "paid" (answered base exc response) ≡ some (bool true)
    → (job : BuildJob) × (response ≡ accepted job)
unfolding answered not_paid
answered-paid base exc (accepted job) h = (job, refl)
answered-paid base exc (invalid detail) h = cc
answered-paid base exc (payment_required terms) h = cc
answered-paid base exc (too_many l n) h = cc
answered-paid base exc (unusable detail) h = cc
answered-paid base exc internal_error h = cc

module _ (R : Redis) (L : Libraries) (N : Nonces) (F : Facilitator L) (P : Service)
    (E : Environment) (D : Pydantic) (others : State R L N F → State R L N F) where
  -- An agent is told that it has paid only if the handler of `/builds` has accepted the request with
  -- the payment that the agent passed, so that the verifier has settled it and the paid record is
  -- stored and queued.
  pub start_build-IsAccepted :
      (source : Source R) (m : Moment) (r : Request) (base exc : String) (prd_body : Fields)
      (x_payment : Option String) (st : State R L N F)
      → says "paid"
          (start_build_for_agent R L N F P E D others source m r base exc prd_body x_payment st).0
        ≡ some (bool true)
      → (job : BuildJob) × IsAccepted R L N F P E D others source m
          (record r { x_payment = x_payment })
          prd_body
          st
          job
          (start_build_for_agent R L N F P E D others source m r base exc prd_body x_payment st).1
  unfolding start_build_for_agent
  start_build-IsAccepted source m r base exc prd_body x_payment st h =
      let r' : Request = record r { x_payment = x_payment } in
      let (job, e) =
        answered-paid base exc (create_build R L N F P E D others source m r' prd_body st).0 h in
      (job, create_build-accepted R L N F P E D others source m r' prd_body st job e)
