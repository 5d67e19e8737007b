-- ===== src/Ownership/Routing.antt =====
-- src/ports/ownership.py: the chosen route against the owners of the diagnostics.
use app_generation_microserv.Base.{
  ℕ, String, ◌≡◌, ◌≢◌, ◌↔◌, ◌<◌, ◌⊎◌, refl, Bool, not, ◌&&◌, inl, inr, Bool-cases, eqb, length,
  true, false, none, List, [], ◌∷◌, ◌++◌, arith,
}
use app_generation_microserv.Base.Dict.{lookup}
use app_generation_microserv.Base.Text.{codes, starts_with, replace}
use app_generation_microserv.Analyzer.{Diagnostic}
use app_generation_microserv.Ownership.{
  Owner, genui, logic, fatal, same_owner, explicit, owner_of, owner_by_path, normalised, Route,
  fail, repair_ui, repair_logic, packaging, owned_by, route_for, unfixable,
}

-- what the owners of a batch are, for each route
abbrev pub AllOwned : (Owner → Type 0) → List Diagnostic → Type 0
AllOwned Q [] = Unit
AllOwned Q (d ∷ ds) = Q (owner_of d) × AllOwned Q ds

abbrev pub AnyOwned : Owner → List Diagnostic → Type 0
AnyOwned o [] = ⊥
AnyOwned o (d ∷ ds) = (owner_of d ≡ o) ⊎ AnyOwned o ds

abbrev pub Suits : Route → List Diagnostic → Type 0
Suits fail ds = AnyOwned fatal ds
Suits repair_ui ds = AllOwned (λ o. o ≢ fatal) ds × AnyOwned genui ds
Suits repair_logic ds = AllOwned (λ o. o ≡ logic) ds
Suits packaging ds = ⊥

same_owner_eq : (a b : Owner) → same_owner a b ≡ true → a ≡ b
same_owner_eq genui genui h = refl
same_owner_eq genui logic h = cc
same_owner_eq genui fatal h = cc
same_owner_eq logic genui h = cc
same_owner_eq logic logic h = refl
same_owner_eq logic fatal h = cc
same_owner_eq fatal genui h = cc
same_owner_eq fatal logic h = cc
same_owner_eq fatal fatal h = refl

same_owner_refl : (a : Owner) → same_owner a a ≡ true
same_owner_refl genui = refl
same_owner_refl logic = refl
same_owner_refl fatal = refl

any_owned : (o : Owner) (ds : List Diagnostic) → owned_by o ds ≡ true → AnyOwned o ds
unfolding owned_by
any_owned o [] h = cc
any_owned o (d ∷ ds) h = elim (Bool-cases (same_owner (owner_of d) o)) [
  | inl this ↦ inl (same_owner_eq (owner_of d) o this)
  | inr other ↦ inr (any_owned o ds (ground (arith, other, h)))
]

none_owned : (o : Owner) (ds : List Diagnostic) → owned_by o ds ≡ false → AllOwned (λ p. p ≢ o) ds
unfolding owned_by
none_owned o [] h = tt
none_owned o (d ∷ ds) h = (
  λ e.
      (let same : same_owner (owner_of d) o ≡ true = rw e (same_owner_refl o) in
        absurd (ground (arith, same, h))),
  none_owned o ds (ground arith),
)

logic_left : (o : Owner) → o ≢ fatal → o ≢ genui → o ≡ logic
logic_left genui f g = absurd (g refl)
logic_left logic f g = refl
logic_left fatal f g = absurd (f refl)

all_logic :
    (ds : List Diagnostic)
    → AllOwned (λ p. p ≢ fatal) ds
    → AllOwned (λ p. p ≢ genui) ds
    → AllOwned (λ p. p ≡ logic) ds
all_logic [] f g = tt
all_logic (d ∷ ds) (f, fs) (g, gs) = (logic_left (owner_of d) f g, all_logic ds fs gs)

-- Where a batch is sent says what its owners are: it fails where some diagnostic is nobody's, goes
-- through GenUI where none is nobody's and some is GenUI's, and to Logic alone where all are Logic's.
-- It is never sent to packaging.
pub route_for-Suits : (ds : List Diagnostic) → Suits (route_for ds) ds
unfolding route_for
route_for-Suits ds = elim (Bool-cases (owned_by fatal ds)) [
  | inl bad ↦ rw bad (any_owned fatal ds bad)
  | inr fine ↦ elim (Bool-cases (owned_by genui ds)) [
    | inl ui ↦ rw (fine, ui) (none_owned fatal ds fine, any_owned genui ds ui)
    | inr none_ui ↦
        rw (fine, none_ui) (all_logic ds (none_owned fatal ds fine) (none_owned genui ds none_ui))
  ]
]

unfixable-owned_by :
    (ds : List Diagnostic) → owned_by fatal ds ≡ not (eqb (length (unfixable ds)) 0)
unfolding owned_by unfixable
unfixable-owned_by [] = refl
unfixable-owned_by (d ∷ ds) = ground (arith, unfixable-owned_by ds)

-- A batch fails the build exactly when some diagnostic in it is one that no agent may act on.
pub route_for-unfixable :
    (ds : List Diagnostic) → (route_for ds ≡ fail) ↔ (0 < length (unfixable ds))
unfolding route_for
route_for-unfixable ds =
    (λ h. ground (arith, unfixable-owned_by ds), λ h. ground (arith, unfixable-owned_by ds))

-- `p.startswith("lib/") and not p.startswith("lib/ui/")`, which the Logic node keeps
abbrev pub in_logic_lane : List ℕ → Bool
in_logic_lane path = starts_with (codes "lib/") path && not (starts_with (codes "lib/ui/") path)

normalised-models :
    (file : String) (rest : List ℕ)
    → codes file ≡ codes "lib/models/" ++ rest
    → normalised file ≡ codes "lib/models/" ++ replace 92 b'/' rest
normalised-models file rest e = rw e

-- A file under lib/models/ is one that the Logic agent may write, and yet every diagnostic in it
-- whose code has no owner of its own is owned by nobody, so it fails the build.
pub owner_of-models :
    (d : Diagnostic) (rest : List ℕ) (ds : List Diagnostic)
    → codes d.file ≡ codes "lib/models/" ++ rest
    → lookup d.code explicit ≡ none
    → (in_logic_lane (codes d.file) ≡ true) × (route_for (d ∷ ds) ≡ fail)
unfolding owner_of route_for owned_by owner_by_path
owner_of-models d rest ds path code = (rw path, rw code (rw (normalised-models d.file rest path)))
