-- ===== src/RateLimit/Identity.antt =====
-- src/service/ratelimit.py: the entry of the header that `client_identity` takes.
use app_generation_microserv.Base.{
  ℕ, ◌≡◌, refl, ap, inl, inr, Bool, true, not, ◌&&◌, Option, some, List, [], ◌∷◌, ◌++◌, keep, map,
  eqb, arith, Bool-cases,
}
use app_generation_microserv.RateLimit.{
  strip, split, is_nonempty, hops, last_or, peer_or_unknown, client_identity,
}

abbrev pub has_no_comma : List ℕ → Bool
has_no_comma [] = true
has_no_comma (c ∷ s) = not (eqb c b',') && has_no_comma s

split-one : (s : List ℕ) → has_no_comma s ≡ true → split s ≡ s ∷ []
unfolding split
split-one [] h = refl
split-one (c ∷ s) h = elim (Bool-cases (eqb c b',')) [
  | inl comma ↦ absurd (ground (arith, comma, h))
  | inr other ↦ rw (other, split-one s (ground (arith, other, h))) refl
]

-- the parts before the last comma, whatever they are, and the part after it
split-last :
    (front s : List ℕ)
    → has_no_comma s ≡ true
    → (parts : List (List ℕ)) × (part : List ℕ) × (split (front ++ b',' ∷ s)
        ≡ part ∷ parts ++ s ∷ [])
unfolding split
split-last [] s h = ([], [], ap (λ p. [] ∷ p) (split-one s h))
split-last (c ∷ front) s h =
    let (parts, part, e) = split-last front s h in
    elim (Bool-cases (eqb c b',')) [
      | inl comma ↦ (part ∷ parts, [], rw (comma, e) refl)
      | inr other ↦ (parts, c ∷ part, rw (other, e) refl)
    ]

hops-last :
    (parts : List (List ℕ)) (s d : List ℕ)
    → is_nonempty (strip s) ≡ true
    → last_or d (keep is_nonempty (map strip (parts ++ s ∷ []))) ≡ strip s
hops-last [] s d h = rw h refl
hops-last (p ∷ parts) s d h = elim (Bool-cases (is_nonempty (strip p))) [
  | inl full ↦ rw full (hops-last parts s (strip p) h)
  | inr blank ↦ rw blank (hops-last parts s d h)
]

header-last :
    (front s d : List ℕ)
    → has_no_comma s ≡ true
    → is_nonempty (strip s) ≡ true
    → last_or d (hops (front ++ b',' ∷ s)) ≡ strip s
unfolding hops
header-last front s d h full =
    let (parts, part, e) = split-last front s h in rw e (hops-last (part ∷ parts) s d full)

-- What a caller puts before the last comma of the header changes nothing: if the entry that the
-- proxy appended is not blank, it alone is the identity.
pub client_identity_appended :
    (front appended : List ℕ) (peer : Option (List ℕ))
    → has_no_comma appended ≡ true
    → is_nonempty (strip appended) ≡ true
    → client_identity (some (front ++ b',' ∷ appended)) peer ≡ strip appended
unfolding client_identity
client_identity_appended [] appended peer h full =
    header-last [] appended (peer_or_unknown peer) h full
client_identity_appended (c ∷ front) appended peer h full =
    header-last (c ∷ front) appended (peer_or_unknown peer) h full
