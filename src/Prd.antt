-- ===== src/Prd.antt =====
-- src/prd/schema.py: the product requirements document and what it must satisfy. Pydantic's part,
-- the types of the fields and that no other field is given, is in the types here.
pub mod Integrity
pub mod Identifiers
use app_generation_microserv.Base.{
  ℕ, String, ◌==◌, Bool, true, false, not, ◌&&◌, ◌||◌, Option, none, some, List, [], ◌∷◌, ◌++◌, eqb,
  leb, if◌then◌else◌, contains, all, any, map,
}
use app_generation_microserv.Base.Text.{codes}

pub data FieldType : Type 0 where
  text number bool date : FieldType

pub record Field : Type 0 where
  pub name : String
  pub label : String
  pub type : FieldType

pub data ActionKind : Type 0 where
  create update delete navigate sign_in sign_out : ActionKind

pub record Action : Type 0 where
  pub name : String
  pub kind : ActionKind
  pub target : Option String

pub data ScreenKind : Type 0 where
  listing form detail auth_screen settings : ScreenKind

pub record Screen : Type 0 where
  pub id : String
  pub title : String
  pub kind : ScreenKind
  pub model : Option String
  pub fields : List Field
  pub actions : List Action

pub record DataModel : Type 0 where
  pub name : String
  pub collection : String
  pub fields : List Field

pub data Theme : Type 0 where
  material cupertino : Theme

pub record Prd : Type 0 where
  pub app_name : String
  pub package_name : String
  pub description : String
  pub theme : Theme
  pub auth : Bool
  pub models : List DataModel
  pub screens : List Screen
  pub x402_payment_verified : Bool

abbrev pub is_lower : ℕ → Bool
is_lower c = leb b'a' c && leb c b'z'

abbrev pub is_upper : ℕ → Bool
is_upper c = leb b'A' c && leb c b'Z'

abbrev pub is_digit : ℕ → Bool
is_digit c = leb b'0' c && leb c b'9'

-- `$` of Python's `re` holds at the end, and also before a newline that ends the text.
abbrev pub at_end : List ℕ → Bool
at_end [] = true
at_end (c ∷ []) = eqb c 10
at_end (c ∷ d ∷ s) = false

-- [a-zA-Z0-9]*$
unfoldable pub alphanumerics : List ℕ → Bool
alphanumerics [] = true
alphanumerics (c ∷ s) =
    let rest = alphanumerics s in
    if is_lower c || is_upper c || is_digit c then rest else at_end (c ∷ s)

-- DART_IDENTIFIER: ^[a-z][a-zA-Z0-9]*$
unfoldable pub dart_identifier : List ℕ → Bool
unfolding alphanumerics
dart_identifier [] = false
dart_identifier (c ∷ s) = is_lower c && alphanumerics s

-- ^[A-Z][a-zA-Z0-9]*$
unfoldable pub pascal_case : List ℕ → Bool
unfolding alphanumerics
pascal_case [] = false
pascal_case (c ∷ s) = is_upper c && alphanumerics s

-- PACKAGE_NAME: ^[a-z][a-z0-9_]*(\.[a-z][a-z0-9_]*)+$. The part read so far: at the start of a
-- segment, or inside one, and whether a dot has been passed.
unfoldable pub segments : Bool → Bool → List ℕ → Bool
segments start dotted [] = not start && dotted
segments true dotted (c ∷ s) = let rest = segments false dotted s in is_lower c && rest
segments false dotted (c ∷ s) =
    let inside = segments false dotted s in
    let next = segments true true s in
    if is_lower c || is_digit c || eqb c b'_'
    then inside
    else if eqb c b'.'
    then next
    else dotted && at_end (c ∷ s)

unfoldable pub package_identifier : List ℕ → Bool
unfolding segments
package_identifier s = segments true false s

-- the `field_validator`s
unfoldable pub valid_field : Field → Bool
unfolding dart_identifier
valid_field f = dart_identifier (codes f.name)

unfoldable pub valid_action : Action → Bool
unfolding dart_identifier
valid_action a = dart_identifier (codes a.name)

unfoldable pub valid_screen : Screen → Bool
unfolding dart_identifier valid_field valid_action
valid_screen s =
    dart_identifier (codes s.id) && all valid_field s.fields && all valid_action s.actions

unfoldable pub valid_model : DataModel → Bool
unfolding pascal_case valid_field
valid_model m = pascal_case (codes m.name) && all valid_field m.fields

unfoldable pub valid_fields : Prd → Bool
valid_fields p =
    package_identifier (codes p.package_name)
    && all valid_model p.models
    && all valid_screen p.screens

-- `_referential_integrity`
pub data IntegrityError : Type 0 where
  no_screens duplicate_ids unknown_model unknown_target : IntegrityError

-- `len(ids) != len(set(ids))`
abbrev pub has_repeats : List String → Bool
has_repeats [] = false
has_repeats (x ∷ xs) = contains x xs || has_repeats xs

abbrev pub unknown : List String → Option String → Bool
unknown known none = false
unknown known (some name) = not (contains name known)

abbrev pub is_navigate : ActionKind → Bool
is_navigate navigate = true
is_navigate _ = false

abbrev pub bad_navigation : List String → Screen → Bool
bad_navigation ids s = any (λ a. is_navigate a.kind && unknown ids a.target) s.actions

abbrev pub screen_ids : Prd → List String
screen_ids p = map (λ (s : Screen). s.id) p.screens

abbrev pub model_names : Prd → List String
model_names p = map (λ (m : DataModel). m.name) p.models

abbrev is_empty : List Screen → Bool
is_empty [] = true
is_empty (_ ∷ _) = false

unfoldable pub referential_integrity : Prd → Option IntegrityError
referential_integrity p =
    if is_empty p.screens
    then some no_screens
    else if has_repeats (screen_ids p)
    then some duplicate_ids
    else if any (λ (s : Screen). unknown (model_names p) s.model) p.screens
    then some unknown_model
    else if any (bad_navigation (screen_ids p)) p.screens
    then some unknown_target
    else none

-- `PRD.model_validate` returns, rather than raises
unfoldable pub accepts : Prd → Bool
accepts p = valid_fields p && elim (referential_integrity p) [ none ↦ true | some _ ↦ false ]
