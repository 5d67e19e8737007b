-- ===== src/Base/Dict.antt =====
-- A Python dict with text keys, in insertion order, as an association list.
use Prim.Native.String.{String}
use mathlib.Core.Path.{◌≡◌, refl}
use mathlib.Core.Bool.{Bool}
use mathlib.Core.Option.{Option, none, some}
use mathlib.Core.List.{List, [], ◌∷◌}
use native.Mathlib.Omega.{arith}
use text.Mathlib.Text.{◌==◌}
use text.Mathlib.TextEquality.{eq_iff}
use app_generation_microserv.Base.Tests.{if◌then◌else◌, is_some}

abbrev pub Dict {ℓ} : Type ℓ → Type ℓ
Dict V = List (String × V)

module _ {ℓ} {V : Type ℓ} where
  -- d.get(k)
  abbrev pub lookup : String → Dict V → Option V
  lookup k [] = none
  lookup k ((j, v) ∷ d) = if j == k then some v else lookup k d

  -- k in d
  abbrev pub has : String → Dict V → Bool
  has k d = is_some (lookup k d)

  -- d[k] = v
  abbrev pub insert : String → V → Dict V → Dict V
  insert k v [] = (k, v) ∷ []
  insert k v ((j, w) ∷ d) = if j == k then (j, v) ∷ d else (j, w) ∷ insert k v d

  -- d.pop(k, None), and del d[k] where k is a key
  abbrev pub erase : String → Dict V → Dict V
  erase k [] = []
  erase k ((j, w) ∷ d) = if j == k then d else (j, w) ∷ erase k d

  abbrev pub keys : Dict V → List String
  keys [] = []
  keys ((j, _) ∷ d) = j ∷ keys d

  -- d.update(e), and {**d, **e}
  abbrev pub update : Dict V → Dict V → Dict V
  update d [] = d
  update d ((k, v) ∷ e) = update (insert k v d) e

  -- The items that pass a test.
  abbrev pub select : (String → V → Bool) → Dict V → Dict V
  select p [] = []
  select p ((k, v) ∷ d) = let rest = select p d in if p k v then (k, v) ∷ rest else rest

  -- No key is listed twice.
  abbrev pub IsDict : Dict V → Type ℓ
  IsDict [] = Unit
  IsDict ((k, _) ∷ d) = (lookup k d ≡ none) × IsDict d

-- What a dict's item becomes when only the items that pass a test are kept.
abbrev pub when {ℓ} : {V : Type ℓ} → (String → V → Bool) → String → Option V → Option V
when p k none = none
when p k (some v) = if p k v then some v else none

module _ {ℓ} {V : Type ℓ} where
  pub lookup-insert :
      (k j : String) (v : V) (d : Dict V)
      → lookup j (insert k v d) ≡ (if k == j then some v else lookup j d)
  lookup-insert k j v [] = refl
  lookup-insert k j v ((i, w) ∷ d) =
      ground (arith, eq_iff k j, eq_iff i k, eq_iff i j, lookup-insert k j v d)

  pub insert-IsDict : (k : String) (v : V) (d : Dict V) → IsDict d → IsDict (insert k v d)
  insert-IsDict k v [] h = (refl, tt)
  insert-IsDict k v ((i, w) ∷ d) h =
      ground (arith, eq_iff k i, eq_iff i k, insert-IsDict k v d, lookup-insert k i v d)

  pub lookup-erase :
      (k j : String) (d : Dict V)
      → IsDict d
      → lookup j (erase k d) ≡ (if k == j then none else lookup j d)
  lookup-erase k j [] h = ground arith
  lookup-erase k j ((i, w) ∷ d) h =
      ground (arith, eq_iff k j, eq_iff i k, eq_iff i j, lookup-erase k j d)

  pub erase-IsDict : (k : String) (d : Dict V) → IsDict d → IsDict (erase k d)
  erase-IsDict k [] h = tt
  erase-IsDict k ((i, w) ∷ d) h =
      ground (arith, erase-IsDict k d, lookup-erase k i d, eq_iff k i, eq_iff i k)

  pub lookup-select-none :
      (p : String → V → Bool) (k : String) (d : Dict V)
      → lookup k d ≡ none
      → lookup k (select p d) ≡ none
  lookup-select-none p k [] h = refl
  lookup-select-none p k ((i, w) ∷ d) h = ground (arith, eq_iff i k, lookup-select-none p k d)

  pub select-IsDict : (p : String → V → Bool) (d : Dict V) → IsDict d → IsDict (select p d)
  select-IsDict p [] h = tt
  select-IsDict p ((i, w) ∷ d) h = ground (arith, select-IsDict p d, lookup-select-none p i d)

module _ {ℓ} {V : Type ℓ} where
  pub lookup-select :
      (p : String → V → Bool) (k : String) (d : Dict V)
      → IsDict d
      → lookup k (select p d) ≡ when p k (lookup k d)
  lookup-select p k [] h = refl
  lookup-select p k ((i, w) ∷ d) h =
      ground (arith, eq_iff i k, lookup-select p k d, lookup-select-none p i d)
