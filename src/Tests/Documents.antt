-- ===== src/Tests/Documents.antt =====
-- Documents as JSON, written and read by a small codec: it shows that the laws of the record
-- `Pydantic` can hold.
use app_generation_microserv.Base.{
  String, ◌≡◌, refl, Bool, true, false, Option, none, some, List, [], ◌∷◌,
}
use app_generation_microserv.Base.Json.{
  Value, null, text, bool, arr, Items, nil, cons, Fields, end, field,
}
use app_generation_microserv.Prd.{
  FieldType, number, date, Field, ActionKind, create, update, delete, navigate, sign_in, sign_out,
  Action, ScreenKind, listing, form, detail, auth_screen, settings, Screen, DataModel, Theme,
  material, cupertino, Prd,
}
use app_generation_microserv.Prd
use app_generation_microserv.App.Documents.{Pydantic}

abbrev bind : {A B : Type 0} → Option A → (A → Option B) → Option B
bind none f = none
bind (some a) f = f a

abbrev written : {A : Type 0} → (A → Value) → List A → Items
written f [] = nil
written f (x ∷ xs) = cons (f x) (written f xs)

abbrev read_items : {A : Type 0} → (Value → Option A) → Items → Option (List A)
read_items f nil = some []
read_items f (cons v vs) = bind (f v) (λ x. bind (read_items f vs) (λ xs. some (x ∷ xs)))

read_items-written :
    {A : Type 0} (g : Value → Option A) (f : A → Value) (xs : List A)
    → ((x : A) → g (f x) ≡ some x)
    → read_items g (written f xs) ≡ some xs
read_items-written g f [] h = refl
read_items-written g f (x ∷ xs) h = rw (h x, read_items-written g f xs h) refl

abbrev optional : Option String → Value
optional none = null
optional (some s) = text s

abbrev optional_of : Value → Option (Option String)
optional_of null = some none
optional_of (text s) = some (some s)
optional_of _ = none

optional_of-optional : (o : Option String) → optional_of (optional o) ≡ some o
optional_of-optional none = refl
optional_of-optional (some s) = refl

abbrev triple : Bool → Bool → Bool → Value
triple a b c = arr (cons (bool a) (cons (bool b) (cons (bool c) nil)))

abbrev type_value : FieldType → Value
type_value Prd.text = triple false false false
type_value number = triple false false true
type_value Prd.bool = triple false true false
type_value date = triple false true true

abbrev type_of : Value → Option FieldType
type_of (arr (cons (bool false) (cons (bool false) (cons (bool false) nil)))) = some Prd.text
type_of (arr (cons (bool false) (cons (bool false) (cons (bool true) nil)))) = some number
type_of (arr (cons (bool false) (cons (bool true) (cons (bool false) nil)))) = some Prd.bool
type_of (arr (cons (bool false) (cons (bool true) (cons (bool true) nil)))) = some date
type_of _ = none

type_of-type_value : (t : FieldType) → type_of (type_value t) ≡ some t
type_of-type_value Prd.text = refl
type_of-type_value number = refl
type_of-type_value Prd.bool = refl
type_of-type_value date = refl

abbrev action_value : ActionKind → Value
action_value create = triple false false false
action_value update = triple false false true
action_value delete = triple false true false
action_value navigate = triple false true true
action_value sign_in = triple true false false
action_value sign_out = triple true false true

abbrev action_of : Value → Option ActionKind
action_of (arr (cons (bool false) (cons (bool false) (cons (bool false) nil)))) = some create
action_of (arr (cons (bool false) (cons (bool false) (cons (bool true) nil)))) = some update
action_of (arr (cons (bool false) (cons (bool true) (cons (bool false) nil)))) = some delete
action_of (arr (cons (bool false) (cons (bool true) (cons (bool true) nil)))) = some navigate
action_of (arr (cons (bool true) (cons (bool false) (cons (bool false) nil)))) = some sign_in
action_of (arr (cons (bool true) (cons (bool false) (cons (bool true) nil)))) = some sign_out
action_of _ = none

action_of-action_value : (k : ActionKind) → action_of (action_value k) ≡ some k
action_of-action_value create = refl
action_of-action_value update = refl
action_of-action_value delete = refl
action_of-action_value navigate = refl
action_of-action_value sign_in = refl
action_of-action_value sign_out = refl

abbrev kind_value : ScreenKind → Value
kind_value listing = triple false false false
kind_value form = triple false false true
kind_value detail = triple false true false
kind_value auth_screen = triple false true true
kind_value settings = triple true false false

abbrev kind_of : Value → Option ScreenKind
kind_of (arr (cons (bool false) (cons (bool false) (cons (bool false) nil)))) = some listing
kind_of (arr (cons (bool false) (cons (bool false) (cons (bool true) nil)))) = some form
kind_of (arr (cons (bool false) (cons (bool true) (cons (bool false) nil)))) = some detail
kind_of (arr (cons (bool false) (cons (bool true) (cons (bool true) nil)))) = some auth_screen
kind_of (arr (cons (bool true) (cons (bool false) (cons (bool false) nil)))) = some settings
kind_of _ = none

kind_of-kind_value : (k : ScreenKind) → kind_of (kind_value k) ≡ some k
kind_of-kind_value listing = refl
kind_of-kind_value form = refl
kind_of-kind_value detail = refl
kind_of-kind_value auth_screen = refl
kind_of-kind_value settings = refl

abbrev field_value : Field → Value
field_value f = arr (cons (text f.name) (cons (text f.label) (cons (type_value f.type) nil)))

abbrev field_of : Value → Option Field
field_of (arr (cons (text name) (cons (text label) (cons t nil)))) =
    bind (type_of t) (λ type. some (record { name = name; label = label; type = type }))
field_of _ = none

field_of-field_value : (f : Field) → field_of (field_value f) ≡ some f
field_of-field_value f = rw (type_of-type_value f.type) refl

abbrev act_value : Action → Value
act_value a = arr (cons (text a.name) (cons (action_value a.kind) (cons (optional a.target) nil)))

abbrev act_of : Value → Option Action
act_of (arr (cons (text name) (cons k (cons t nil)))) = bind (action_of k) (λ kind.
    bind (optional_of t) (λ target. some (record { name = name; kind = kind; target = target })))
act_of _ = none

act_of-act_value : (a : Action) → act_of (act_value a) ≡ some a
act_of-act_value a = rw (action_of-action_value a.kind, optional_of-optional a.target) refl

abbrev screen_value : Screen → Value
screen_value s = arr (
    cons (text s.id) (
      cons (text s.title) (
        cons (kind_value s.kind) (
          cons (optional s.model) (
            cons (arr (written field_value s.fields))
              (cons (arr (written act_value s.actions)) nil))))))

abbrev screen_of : Value → Option Screen
screen_of
      (arr (
        cons
          (text id)
          (cons (text title) (cons k (cons m (cons (arr fs) (cons (arr as_) nil))))))) =
    bind (kind_of k) (λ kind. bind (optional_of m) (λ model.
      bind (read_items field_of fs) (λ fields. bind (read_items act_of as_) (λ actions.
        some (record {
          id = id;
          title = title;
          kind = kind;
          model = model;
          fields = fields;
          actions = actions;
        })))))
screen_of _ = none

screen_of-screen_value : (s : Screen) → screen_of (screen_value s) ≡ some s
screen_of-screen_value s =
    rw
      (
        kind_of-kind_value s.kind,
        optional_of-optional s.model,
        read_items-written field_of field_value s.fields field_of-field_value,
        read_items-written act_of act_value s.actions act_of-act_value,
      )
      refl

abbrev model_value : DataModel → Value
model_value m =
    arr (
      cons (text m.name) (cons (text m.collection) (cons (arr (written field_value m.fields)) nil)))

abbrev model_of : Value → Option DataModel
model_of (arr (cons (text name) (cons (text collection) (cons (arr fs) nil)))) =
    bind (read_items field_of fs)
      (λ fields. some (record { name = name; collection = collection; fields = fields }))
model_of _ = none

model_of-model_value : (m : DataModel) → model_of (model_value m) ≡ some m
model_of-model_value m =
    rw (read_items-written field_of field_value m.fields field_of-field_value) refl

abbrev theme_value : Theme → Value
theme_value material = bool true
theme_value cupertino = bool false

abbrev theme_of : Value → Option Theme
theme_of (bool true) = some material
theme_of (bool false) = some cupertino
theme_of _ = none

theme_of-theme_value : (t : Theme) → theme_of (theme_value t) ≡ some t
theme_of-theme_value material = refl
theme_of-theme_value cupertino = refl

abbrev dumped : Prd → Fields
dumped p = field "app_name" (text p.app_name) (
    field "package_name" (text p.package_name) (
      field "description" (text p.description) (
        field "theme" (theme_value p.theme) (
          field "auth" (bool p.auth) (
            field "models" (arr (written model_value p.models)) (
              field "screens" (arr (written screen_value p.screens))
                (field "x402_payment_verified" (bool p.x402_payment_verified) end)))))))

abbrev typed : Fields → Option Prd
typed
      (field _ (text app_name) (
        field _ (text package_name) (
          field _ (text description) (
            field _ t (
              field _
                (bool auth)
                (field _ (arr ms) (field _ (arr ss) (field _ (bool verified) end)))))))) =
    bind (theme_of t) (λ theme. bind (read_items model_of ms) (λ models.
      bind (read_items screen_of ss) (λ screens. some (record {
        app_name = app_name;
        package_name = package_name;
        description = description;
        theme = theme;
        auth = auth;
        models = models;
        screens = screens;
        x402_payment_verified = verified;
      }))))
typed _ = none

pub typed-dumped : (p : Prd) → typed (dumped p) ≡ some p
typed-dumped p =
    rw
      (
        theme_of-theme_value p.theme,
        read_items-written model_of model_value p.models model_of-model_value,
        read_items-written screen_of screen_value p.screens screen_of-screen_value,
      )
      refl

abbrev pub pydantic : Pydantic
pydantic = record {
  typed = typed;
  dump = dumped;
  error = λ fs. "Field required";
  typed-end = refl;
  typed-dump = typed-dumped;
}
