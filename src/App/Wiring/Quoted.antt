-- ===== src/App/Wiring/Quoted.antt =====
-- src/service/app.py: the terms that are quoted, against the terms that are enforced.
use app_generation_microserv.Base.{
  String, ◌==◌, ◌≡◌, refl, sym, ap, ◌∙◌, inl, inr, Option, none, some, arith, Bool-cases,
  Option-cases, eq_iff,
}
use app_generation_microserv.Base.Int.{ℤ, pos_part}
use app_generation_microserv.Payments.Verifier.{Config}
use app_generation_microserv.App.Settings.{
  Environment, X402Settings, Chosen, x402_eip3009, dev_shared_secret, truthy, or_else, or_dev,
  default_to, env, x402_from_env, verifier_with, verifier_from_env, bind,
}
use app_generation_microserv.App.Settings
use app_generation_microserv.App.Accept.{Service, x402}
use app_generation_microserv.App.Wiring.{Parts, verifier_of, token_of, number, create_app}

-- A variable that is set and not empty is read the same with and without the empty value.
read-same :
    (int : String → Option ℤ) (o : Option String) (default : String) (n m : ℤ)
    → int "" ≡ none
    → int (or_else o default) ≡ some n
    → int (default_to o default) ≡ some m
    → n ≡ m
read-same int none default n m e h h' = cc
read-same int (some s) default n m e h h' = elim (Bool-cases (s == "")) [
  | inl empty ↦
      (let s≡ : s ≡ "" = (eq_iff s "").0 empty in
        let none≡ : none ≡ some m = sym e ∙ ap int (sym s≡) ∙ h' in cc)
  | inr full ↦
      (let h'' : int s ≡ some n = rw full at h in let same : some n ≡ some m = sym h'' ∙ h' in cc)
]

wired-parts :
    (E : Environment) (B : Parts) (P : Service)
    → create_app E B ≡ some P
    → (chosen : Chosen) × (m : ℤ) × (verifier_from_env E ≡ some chosen)
      × (number E B "X402_PRICE_ATOMIC" "500000" ≡ some m)
      × (P.verifier ≡ verifier_of B.digest chosen)
      × (P.price_atomic ≡ pos_part m)
      × (P.token ≡ token_of chosen)
unfolding create_app
wired-parts E B P h = elim (Option-cases (verifier_from_env E)) [
  | inl fails ↦ absurd (ground (arith, fails, h))
  | inr (chosen, v) ↦ elim (Option-cases (number E B "X402_PRICE_ATOMIC" "500000")) [
    | inl fails ↦ absurd (ground (arith, v, fails, h))
    | inr (m, n) ↦
        (chosen, m, v, n, ground (arith, v, n, h), ground (arith, v, n, h), ground (arith, v, n, h))
  ]
]

chosen-x402 :
    (E : Environment) (s : X402Settings)
    → verifier_from_env E ≡ some (x402_eip3009 s)
    → Environment.int E (env E "X402_PRICE_ATOMIC" "500000") ≡ some s.price
unfolding verifier_from_env verifier_with x402_from_env
chosen-x402 E s h = ground (arith, h)

x402-config :
    (B : Parts) (chosen : Chosen) (c : Config)
    → verifier_of B.digest chosen ≡ x402 c
    → (s : X402Settings) × (chosen ≡ x402_eip3009 s)
      × (token_of chosen ≡ some c.token)
      × (c.min_value ≡ pos_part s.price)
unfolding verifier_of token_of
x402-config B (x402_eip3009 s) c h = (s, refl, cc, cc)
x402-config B (dev_shared_secret secret) c h = cc
x402-config B Settings.refusing c h = cc

-- What a deployment quotes is what it enforces: the price of its challenges is the least value that
-- its verifier accepts, and their token is the one that it verifies signatures for. `int` of an empty
-- text raises.
pub wired-quoted :
    (E : Environment) (B : Parts) (P : Service) (c : Config)
    → Environment.int E "" ≡ none
    → create_app E B ≡ some P
    → P.verifier ≡ x402 c
    → (c.min_value ≡ P.price_atomic) × (P.token ≡ some c.token)
unfolding env number
wired-quoted E B P c e h v =
    let (chosen, m, from_env, price, is, amount, token) = wired-parts E B P h in
    let (s, c≡, t, value) = x402-config B chosen c (sym is ∙ v) in
    let read = chosen-x402 E s (from_env ∙ ap some c≡) in
    let same =
      read-same (Environment.int E) (Environment.getenv E "X402_PRICE_ATOMIC") "500000" s.price m e
        read price in
    (value ∙ ap pos_part same ∙ sym amount, token ∙ t)
