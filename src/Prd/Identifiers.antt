-- ===== src/Prd/Identifiers.antt =====
-- src/prd/schema.py: the patterns of the names, and what `$` means in Python's `re.match`.
use app_generation_microserv.Base.{
  ℕ, String, ◌≡◌, refl, Bool, true, false, not, ◌&&◌, List, [], ◌∷◌, ◌++◌, arith, eqb,
}
use app_generation_microserv.Base.Text.{codes}
use app_generation_microserv.Prd.{
  Prd, segments, package_identifier, valid_fields, referential_integrity, accepts,
}

abbrev pub no_newline : List ℕ → Bool
no_newline [] = true
no_newline (c ∷ s) = not (eqb c 10) && no_newline s

segments-newline :
    (dotted : Bool) (s : List ℕ)
    → no_newline s ≡ true
    → segments false dotted s ≡ true
    → segments false dotted (s ++ 10 ∷ []) ≡ true
unfolding segments
segments-newline dotted [] n h = ground arith
segments-newline dotted (c ∷ []) n h = ground arith
segments-newline dotted (c ∷ d ∷ s) n h =
    ground (
      arith,
      segments-newline dotted (d ∷ s),
      segments-newline true s,
      segments-newline true (d ∷ s),
    )

package_identifier-newline :
    (s : List ℕ)
    → no_newline s ≡ true
    → package_identifier s ≡ true
    → package_identifier (s ++ 10 ∷ []) ≡ true
unfolding package_identifier
package_identifier-newline [] n h = cc
package_identifier-newline (c ∷ s) n h = ground (arith, segments-newline false s)

same_integrity :
    (p : Prd) (name : String)
    → referential_integrity (record p { package_name = name }) ≡ referential_integrity p
unfolding referential_integrity
same_integrity p name = refl

-- An accepted document whose package name has no newline in it is accepted with a newline behind
-- its package name too.
pub accepts-newline :
    (p : Prd) (name : String)
    → no_newline (codes p.package_name) ≡ true
    → codes name ≡ codes p.package_name ++ 10 ∷ []
    → accepts p ≡ true
    → accepts (record p { package_name = name }) ≡ true
unfolding accepts valid_fields
accepts-newline p name n e h =
    rw (e, same_integrity p name)
      (ground (arith, package_identifier-newline (codes p.package_name), h))
