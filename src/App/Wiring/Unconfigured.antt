-- ===== src/App/Wiring/Unconfigured.antt =====
-- src/service/app.py: a deployment that has no way to be paid.
use app_generation_microserv.Base.{
  String, ◌≡◌, ◌≢◌, refl, sym, ap, ◌∙◌, Bool, true, false, Option, none, some, arith,
}
use app_generation_microserv.Base.Json.{Fields}
use app_generation_microserv.Redis.{Redis}
use app_generation_microserv.RateLimit.{Source}
use app_generation_microserv.Payments.Eip3009.{Libraries}
use app_generation_microserv.Payments.Verifier.{Nonces, Facilitator}
use app_generation_microserv.Jobs.{BuildJob}
use app_generation_microserv.App.Settings.{
  Environment, Chosen, truthy, or_else, token_from_env, verifier_with, verifier_from_env, bind,
}
use app_generation_microserv.App.Settings
use app_generation_microserv.App.Documents.{Pydantic}
use app_generation_microserv.App.Accept.{
  Request, Service, Verifier, refusing, accepted, State, Moment, settle_by, create_build,
}
use app_generation_microserv.App.Accept.Charging.{create_build-accepted}
use app_generation_microserv.App.Wiring.{Parts, create_app}

-- no token contract, no shared secret
abbrev pub IsUnconfigured : Environment → Type 0
IsUnconfigured E =
    (or_else (Environment.getenv E "X402_TOKEN_CONTRACT") "" ≡ "")
    × (truthy (Environment.getenv E "X402_SHARED_SECRET") ≡ none)

unconfigured-verifier :
    (E : Environment) → IsUnconfigured E → verifier_from_env E ≡ some Settings.refusing
unfolding verifier_from_env token_from_env verifier_with Settings.env
unconfigured-verifier E (contract, secret) = rw (contract, secret) refl

bind-some :
    {A B : Type 0} (o : Option A) (f : A → Option B) (b : B)
    → bind o f ≡ some b
    → (a : A) × (o ≡ some a) × (f a ≡ some b)
bind-some none f b h = cc
bind-some (some a) f b h = (a, refl, h)

wired-refusing :
    (E : Environment) (B : Parts) (P : Service)
    → IsUnconfigured E
    → create_app E B ≡ some P
    → P.verifier ≡ refusing
unfolding create_app
wired-refusing E B P u h = let e = unconfigured-verifier E u in ground (arith, e, h)

module _ (R : Redis) (L : Libraries) (N : Nonces) (F : Facilitator L) (P : Service)
    (E : Environment) (B : Parts) (D : Pydantic) (others : State R L N F → State R L N F) where
  refusing-settle :
      (v : Verifier) (m : Moment) (header : Option String) (st c : State R L N F)
      → v ≡ refusing
      → settle_by R L N F P v m header st ≢ (some true, c)
  unfolding settle_by
  refusing-settle v m header st c e h =
      let h' : settle_by R L N F P refusing m header st ≡ (some true, c) =
        ap (λ v. settle_by R L N F P v m header st) (sym e) ∙ h in
      let answer : some false ≡ some true = ap (λ (p : Option Bool × State R L N F). p.0) h' in cc

  -- A deployment whose environment names no token contract and no shared secret accepts no build
  -- from anyone, whatever the request holds.
  pub unconfigured-refuses :
      (source : Source R) (m : Moment) (r : Request) (body : Fields) (st : State R L N F)
      (job : BuildJob)
      → IsUnconfigured E
      → create_app E B ≡ some P
      → (create_build R L N F P E D others source m r body st).0 ≢ accepted job
  unconfigured-refuses source m r body st job u wired h =
      let a = create_build-accepted R L N F P E D others source m r body st job h in
      refusing-settle P.verifier m r.x_payment _ a.charged (wired-refusing E B P u wired) a.settled
