-- ===== src/Prd/Integrity.antt =====
-- src/prd/schema.py: what an accepted document is.
use app_generation_microserv.Base.{
  String, ◌≡◌, ◌≤◌, ◌<◌, eq_iff, true, false, ◌&&◌, Option, none, some, List, [], ◌∷◌, arith,
  contains, any, count, ◌≢◌, refl,
}
use app_generation_microserv.Prd.{
  Prd, Screen, Action, ActionKind, create, delete, navigate, sign_in, sign_out, screen_ids,
  model_names, has_repeats, unknown, is_navigate, bad_navigation, referential_integrity, accepts,
}

abbrev pub All {ℓ} : {A : Type ℓ} → (A → Type 0) → List A → Type 0
All P [] = Unit
All P (x ∷ xs) = P x × All P xs

-- A name that is given is one of the known ones.
abbrev pub Known : List String → Option String → Type 0
Known known none = Unit
Known known (some name) = 0 < count name known

-- An action that navigates goes to a known screen.
abbrev pub Goes : List String → ActionKind → Option String → Type 0
Goes ids navigate target = Known ids target
Goes ids _ target = Unit

abbrev pub Leads : List String → Action → Type 0
Leads ids a = Goes ids a.kind a.target

contains-count : (k : String) (xs : List String) → contains k xs ≡ true → 0 < count k xs
contains-count k [] h = cc
contains-count k (x ∷ xs) h = ground (arith, contains-count k xs)

contains-not : (k : String) (xs : List String) → contains k xs ≡ false → count k xs ≡ 0
contains-not k [] h = refl
contains-not k (x ∷ xs) h = ground (arith, contains-not k xs)

Known-of : (known : List String) (o : Option String) → unknown known o ≡ false → Known known o
Known-of known none h = tt
Known-of known (some name) h = contains-count name known (ground arith)

Goes-of :
    (ids : List String) (kind : ActionKind) (target : Option String)
    → is_navigate kind && unknown ids target ≡ false
    → Goes ids kind target
Goes-of ids navigate target h = Known-of ids target h
Goes-of ids create target h = tt
Goes-of ids ActionKind.update target h = tt
Goes-of ids delete target h = tt
Goes-of ids sign_in target h = tt
Goes-of ids sign_out target h = tt

Leads-of :
    (ids : List String) (acts : List Action)
    → any (λ a. is_navigate a.kind && unknown ids a.target) acts ≡ false
    → All (Leads ids) acts
Leads-of ids [] h = tt
Leads-of ids (a ∷ acts) h =
    (Goes-of ids a.kind a.target (ground arith), Leads-of ids acts (ground arith))

targets_of :
    (ids : List String) (ss : List Screen)
    → any (bad_navigation ids) ss ≡ false
    → All (λ s. All (Leads ids) s.actions) ss
targets_of ids [] h = tt
targets_of ids (s ∷ ss) h =
    (Leads-of ids s.actions (ground arith), targets_of ids ss (ground arith))

models_of :
    (known : List String) (ss : List Screen)
    → any (λ (s : Screen). unknown known s.model) ss ≡ false
    → All (λ s. Known known s.model) ss
models_of known [] h = tt
models_of known (s ∷ ss) h =
    (Known-of known s.model (ground arith), models_of known ss (ground arith))

once_of : (k : String) (xs : List String) → has_repeats xs ≡ false → count k xs ≤ 1
once_of k [] h = ground arith
once_of k (x ∷ xs) h = ground (arith, once_of k xs, contains-not x xs, eq_iff x k)

pub record IsCoherent (p : Prd) : Type 0 where
  pub screens : p.screens ≢ []
  pub ids : (k : String) → count k (screen_ids p) ≤ 1
  pub models : All (λ s. Known (model_names p) s.model) p.screens
  pub targets : All (λ s. All (Leads (screen_ids p)) s.actions) p.screens

-- An accepted document has a screen, no two screens of one id, and only models and navigation
-- targets that it declares.
pub accepts-IsCoherent : (p : Prd) → accepts p ≡ true → IsCoherent p
unfolding accepts referential_integrity
accepts-IsCoherent p h = record {
  screens = λ e. ground (arith, h, e);
  ids = λ k. once_of k (screen_ids p) (ground arith);
  models = models_of (model_names p) p.screens (ground arith);
  targets = targets_of (screen_ids p) p.screens (ground arith);
}
