-- ===== src/App/Accept/Buildable.antt =====
-- src/service/app.py: what `create_build` stores, against what `build_work` asks of it.
use app_generation_microserv.Base.{
  ◌≡◌, refl, sym, ap, ◌∙◌, inl, inr, true, false, not, Option, none, some, arith, Bool-cases,
}
use app_generation_microserv.Base.Json.{Fields, end, field}
use app_generation_microserv.Prd.{Prd, accepts}
use app_generation_microserv.Redis.{Redis}
use app_generation_microserv.Jobs.{BuildJob}
use app_generation_microserv.App.Documents.{Pydantic, accepted, model_validate}
use app_generation_microserv.App.Accept.{Response}
use app_generation_microserv.App.Accept
use app_generation_microserv.App.Work.{build, build_work, is_empty}

some_injective : (a b : Prd) → some a ≡ some b → a ≡ b
some_injective a b h = cc

module _ (D : Pydantic) where
  accepted-accepts : (o : Option Prd) (p : Prd) → accepted D o ≡ some p → accepts p ≡ true
  accepted-accepts none p h = cc
  accepted-accepts (some q) p h = elim (Bool-cases (accepts q)) [
    | inl good ↦
        (let e : some q ≡ some p = rw good at h in sym (ap accepts (some_injective q p e)) ∙ good)
    | inr bad ↦ absurd (ground (arith, bad, h))
  ]

  -- A validated document, dumped, is validated again to itself.
  pub model_validate-dump :
      (body : Fields) (p : Prd)
      → model_validate D body ≡ some p
      → model_validate D (D.dump p) ≡ some p
  unfolding model_validate
  model_validate-dump body p h =
      let good = accepted-accepts (D.typed body) p h in rw (D.typed-dump p, good) refl

  dump-is_empty : (p : Prd) → is_empty (some (D.dump p)) ≡ false
  dump-is_empty p = go (D.dump p) (D.typed-dump p)
    where
      go : (fs : Fields) → D.typed fs ≡ some p → is_empty (some fs) ≡ false
      go end h = let e : none ≡ some p = sym D.typed-end ∙ h in cc
      go (field k v fs) h = refl

  -- A record of one kind that holds a validated document is one that the factory builds.
  pub dumped-buildable :
      (body : Fields) (p : Prd) (job : BuildJob)
      → model_validate D body ≡ some p
      → job.prd ≡ some (D.dump p)
      → job.paid ≡ not job.preview
      → build_work D job ≡ build p
  unfolding build_work
  dumped-buildable body p job v d kind = elim (Bool-cases job.preview) [
    | inl free ↦ rw (kind, d, free, dump-is_empty p, model_validate-dump body p v) refl
    | inr sold ↦ rw (kind, d, sold, dump-is_empty p, model_validate-dump body p v) refl
  ]
