-- ===== src/Base/Text.antt =====
-- Texts as the lists of their code points, where the program walks them, and a few of Python's
-- text functions.
use Prim.Native.Char.{code}
use Prim.Native.String
use Prim.Native.String.{String, ◌++◌}
use Prim.Native.Nat.{ℕ, zero, suc, ◌/◌, ◌%◌, Ordering}
use mathlib.Core.Bool.{Bool, true, false, ◌&&◌, ◌||◌}
use mathlib.Core.List.{List, [], ◌∷◌, reverse}
use app_generation_microserv.Base.Tests.{eqb, ltb, if◌then◌else◌}

abbrev pub codes : String → List ℕ
codes String.[] = []
codes (String.◌∷◌ c s) = code c ∷ codes s

-- s.startswith(p)
abbrev pub starts_with : List ℕ → List ℕ → Bool
starts_with [] s = true
starts_with (p ∷ ps) [] = false
starts_with (p ∷ ps) (c ∷ s) = eqb p c && starts_with ps s

-- p in s
abbrev pub occurs : List ℕ → List ℕ → Bool
occurs p [] = starts_with p []
occurs p (c ∷ s) = starts_with p (c ∷ s) || occurs p s

-- s.replace(a, b), for single characters
abbrev pub replace : ℕ → ℕ → List ℕ → List ℕ
replace a b [] = []
replace a b (c ∷ s) = (if eqb c a then b else c) ∷ replace a b s

-- s.lstrip(chars), the characters given by a test
abbrev pub lstrip : (ℕ → Bool) → List ℕ → List ℕ
lstrip p [] = []
lstrip p (c ∷ s) = let rest = lstrip p s in if p c then rest else c ∷ s

-- s.lower(), on ASCII
abbrev pub lower_code : ℕ → ℕ
lower_code c = if ltb 64 c && ltb c 91 then Prim.Native.Nat.◌+◌ c 32 else c

abbrev pub same_codes : List ℕ → List ℕ → Bool
same_codes [] [] = true
same_codes [] (_ ∷ _) = false
same_codes (_ ∷ _) [] = false
same_codes (a ∷ s) (b ∷ t) = eqb a b && same_codes s t

abbrev pub digit : ℕ → String
digit zero = "0"
digit (suc zero) = "1"
digit (suc (suc zero)) = "2"
digit (suc (suc (suc zero))) = "3"
digit (suc (suc (suc (suc zero)))) = "4"
digit (suc (suc (suc (suc (suc zero))))) = "5"
digit (suc (suc (suc (suc (suc (suc zero)))))) = "6"
digit (suc (suc (suc (suc (suc (suc (suc zero))))))) = "7"
digit (suc (suc (suc (suc (suc (suc (suc (suc zero)))))))) = "8"
digit _ = "9"

-- A number has fewer digits than it counts, so one more round than the number is enough.
digits_from : ℕ → ℕ → String → String
digits_from zero n acc = acc
digits_from (suc fuel) n acc =
    let rest = digits_from fuel (n / 10) (digit (n % 10) ++ acc) in
    if ltb n 10 then digit n ++ acc else rest

-- str(n)
unfoldable pub decimal : ℕ → String
unfolding digits_from
decimal n = digits_from (suc n) n ""

-- sorted(texts): insertion by the order of code points, which is the order of UTF-8 bytes.
abbrev pub before : String → String → Bool
before s t = elim (String.compare s t) [ Ordering.gt ↦ false | _ ↦ true ]

abbrev pub insert_sorted : String → List String → List String
insert_sorted x [] = x ∷ []
insert_sorted x (y ∷ ys) = if before x y then x ∷ y ∷ ys else y ∷ insert_sorted x ys

abbrev pub sorted : List String → List String
sorted [] = []
sorted (x ∷ xs) = insert_sorted x (sorted xs)

abbrev pub same_texts : List String → List String → Bool
same_texts [] [] = true
same_texts [] (_ ∷ _) = false
same_texts (_ ∷ _) [] = false
same_texts (s ∷ ss) (t ∷ ts) = elim (String.compare s t) [
  | Ordering.eq ↦ same_texts ss ts
  | _ ↦ false
]

-- s.endswith(p)
abbrev pub ends_with : List ℕ → List ℕ → Bool
ends_with p s = starts_with (reverse p) (reverse s)
