-- ===== src/Jobs/Json.antt =====
-- src/service/jobs.py: a record as the shared store keeps it, and as the buyer sees it. The codecs of
-- Python's `json` and of its dates are the record `Codec`. A blob whose fields have other types than
-- the dataclass declares, which `to_json` never writes, is unreadable here.
pub mod RoundTrip
use app_generation_microserv.Base.{
  ℕ, String, ◌==◌, ◌≡◌, Bool, true, false, not, ◌&&◌, ◌||◌, Option, none, some, List, [], ◌∷◌,
  if◌then◌else◌, contains,
}
use app_generation_microserv.Base.Int.{ℤ, pos}
use app_generation_microserv.Base.Json.{
  Value, null, num, text, bool, arr, obj, Items, nil, cons, Fields, end, field, get,
}
use app_generation_microserv.Jobs.{BuildStatus, queued, running, succeeded, failed, BuildJob}

pub record Codec : Type 0 where
  pub dumps : Value → String
  pub loads : String → Option Value
  pub isoformat : ℕ → String
  -- none where it raises
  pub fromisoformat : String → Option ℕ

-- `BuildStatus.value`, and `BuildStatus(value)`
unfoldable pub status_value : BuildStatus → String
status_value queued = "queued"
status_value running = "running"
status_value succeeded = "succeeded"
status_value failed = "failed"

unfoldable pub status_of : String → Option BuildStatus
status_of s =
    if s == "queued"
    then some queued
    else if s == "running"
    then some running
    else if s == "succeeded"
    then some succeeded
    else if s == "failed"
    then some failed
    else none

abbrev pub items : List String → Items
items [] = nil
items (s ∷ ss) = cons (text s) (items ss)

abbrev pub text_or_null : Option String → Value
text_or_null none = null
text_or_null (some s) = text s

abbrev pub value_or_null : Option Value → Value
value_or_null none = null
value_or_null (some v) = v

abbrev pub object_or_null : Option Fields → Value
object_or_null none = null
object_or_null (some fs) = obj fs

-- The fields of the dataclass; `cls(**raw)` raises on any other.
abbrev pub known_fields : List String
known_fields =
    "id" ∷ "app_name" ∷ "status" ∷ "created_at" ∷ "finished_at" ∷ "log" ∷ "diagnostics" ∷ "failure"
    ∷ "apk_path" ∷ "build_dir" ∷ "heartbeat_at" ∷ "settlement_tx" ∷ "usage" ∷ "prd" ∷ "paid"
    ∷ "preview" ∷ "attempts" ∷ []

abbrev pub are_known : Fields → Bool
are_known end = true
are_known (field k v fs) = contains k known_fields && are_known fs

abbrev pub then_read : {A B : Type 0} → Option A → (A → Option B) → Option B
then_read none f = none
then_read (some a) f = f a

-- A field that must be there, and one with a default.
abbrev pub required : {A : Type 0} → (Value → Option A) → Option Value → Option A
required f none = none
required f (some v) = f v

abbrev pub defaulted : {A : Type 0} → A → (Value → Option A) → Option Value → Option A
defaulted a f none = some a
defaulted a f (some v) = f v

abbrev pub as_text : Value → Option String
as_text (text s) = some s
as_text _ = none

abbrev pub as_optional_text : Value → Option (Option String)
as_optional_text null = some none
as_optional_text (text s) = some (some s)
as_optional_text _ = none

abbrev pub one_more : String → Option (List String) → Option (List String)
one_more s none = none
one_more s (some ss) = some (s ∷ ss)

abbrev pub texts : Items → Option (List String)
texts nil = some []
texts (cons (text s) vs) = one_more s (texts vs)
texts (cons _ vs) = none

abbrev pub as_texts : Value → Option (List String)
as_texts (arr vs) = texts vs
as_texts _ = none

abbrev pub as_bool : Value → Option Bool
as_bool (bool b) = some b
as_bool _ = none

abbrev pub as_count : Value → Option ℕ
as_count (num (pos n)) = some n
as_count _ = none

abbrev pub as_fields : Value → Option Fields
as_fields (obj fs) = some fs
as_fields _ = none

abbrev pub as_optional_fields : Value → Option (Option Fields)
as_optional_fields null = some none
as_optional_fields (obj fs) = some (some fs)
as_optional_fields _ = none

abbrev pub as_receipt : Value → Option (Option Value)
as_receipt null = some none
as_receipt v = some (some v)

abbrev pub as_status : Value → Option BuildStatus
as_status (text s) = status_of s
as_status _ = none

abbrev pub some_stamp : Option ℕ → Option (Option ℕ)
some_stamp none = none
some_stamp (some t) = some (some t)

module _ (C : Codec) where
  -- `value.isoformat() if value else None`
  abbrev pub stamp : Option ℕ → Value
  stamp none = null
  stamp (some t) = text (C.isoformat t)

  unfoldable pub raw : BuildJob → Fields
  unfolding status_value
  raw job = field "id" (text job.id) (
      field "app_name" (text job.app_name) (
        field "status" (text (status_value job.status)) (
          field "created_at" (text (C.isoformat job.created_at)) (
            field "finished_at" (stamp job.finished_at) (
              field "log" (arr (items job.log)) (
                field "diagnostics" (arr (items job.diagnostics)) (
                  field "failure" (text_or_null job.failure) (
                    field "apk_path" (text_or_null job.apk_path) (
                      field "build_dir" (text_or_null job.build_dir) (
                        field "heartbeat_at" (stamp job.heartbeat_at) (
                          field "settlement_tx" (value_or_null job.settlement_tx) (
                            field "usage" (obj job.usage) (
                              field "prd" (object_or_null job.prd) (
                                field "paid" (bool job.paid) (
                                  field "preview" (bool job.preview)
                                    (field "attempts" (num (pos job.attempts)) end))))))))))))))))

  unfoldable pub to_json : BuildJob → String
  unfolding raw
  to_json job = C.dumps (obj (raw job))

  -- `datetime.fromisoformat(raw[stamp]) if raw.get(stamp) else None`
  abbrev pub as_stamp : Value → Option (Option ℕ)
  as_stamp null = some none
  as_stamp (text s) = if s == "" then some none else some_stamp (C.fromisoformat s)
  as_stamp _ = none

  -- a record without the time of its creation is unreadable here
  abbrev pub as_time : Value → Option ℕ
  as_time (text s) = C.fromisoformat s
  as_time _ = none

  -- the dataclass of a dict whose keys are all its fields
  unfoldable pub job_of : Fields → Option BuildJob
  unfolding status_of
  job_of fs = then_read (required as_text (get "id" fs)) (λ id.
      then_read (required as_text (get "app_name" fs)) (λ app_name.
        then_read (required as_status (get "status" fs)) (λ status.
          then_read (required as_time (get "created_at" fs)) (λ created_at.
            then_read (defaulted none as_stamp (get "finished_at" fs)) (λ finished_at.
              then_read (defaulted [] as_texts (get "log" fs)) (λ log.
                then_read (defaulted [] as_texts (get "diagnostics" fs)) (λ diagnostics.
                  then_read (defaulted none as_optional_text (get "failure" fs)) (λ failure.
                    then_read (defaulted none as_optional_text (get "apk_path" fs)) (λ apk_path.
                      then_read (defaulted none as_optional_text (get "build_dir" fs)) (λ build_dir.
                        then_read (defaulted none as_stamp (get "heartbeat_at" fs)) (λ heartbeat_at.
                          then_read (defaulted none as_receipt (get "settlement_tx" fs))
                            (λ settlement_tx.
                              then_read (defaulted end as_fields (get "usage" fs)) (λ usage.
                                then_read (defaulted none as_optional_fields (get "prd" fs)) (λ prd.
                                  then_read (defaulted false as_bool (get "paid" fs)) (λ paid.
                                    then_read (defaulted false as_bool (get "preview" fs))
                                      (λ preview.
                                        then_read (defaulted 0 as_count (get "attempts" fs))
                                          (λ attempts. some (record {
                                            id = id;
                                            app_name = app_name;
                                            status = status;
                                            created_at = created_at;
                                            finished_at = finished_at;
                                            log = log;
                                            diagnostics = diagnostics;
                                            failure = failure;
                                            apk_path = apk_path;
                                            build_dir = build_dir;
                                            heartbeat_at = heartbeat_at;
                                            settlement_tx = settlement_tx;
                                            usage = usage;
                                            prd = prd;
                                            paid = paid;
                                            preview = preview;
                                            attempts = attempts;
                                          }))))))))))))))))))

  abbrev pub loaded : Option Value → Option BuildJob
  loaded none = none
  loaded (some (obj fs)) = if are_known fs then job_of fs else none
  loaded (some _) = none

  -- `from_json`; what it raises, which `RedisJobStore.get` catches, is none
  unfoldable pub from_json : String → Option BuildJob
  unfolding job_of
  from_json blob = loaded (C.loads blob)

  -- `exists` says whether there is a file at a path
  abbrev pub available : (String → Bool) → Option String → Bool
  available exists none = false
  available exists (some p) = not (p == "") && exists p

  -- `public`
  unfoldable pub public : (String → Bool) → BuildJob → Fields
  unfolding status_value
  public exists job = field "id" (text job.id) (
      field "app_name" (text job.app_name) (
        field "status" (text (status_value job.status)) (
          field "created_at" (text (C.isoformat job.created_at)) (
            field "finished_at" (stamp job.finished_at) (
              field "log" (arr (items job.log)) (
                field "diagnostics" (arr (items job.diagnostics)) (
                  field "failure" (text_or_null job.failure) (
                    field "settlement_tx" (value_or_null job.settlement_tx) (
                      field "attempts" (num (pos job.attempts)) (
                        field "apk_available" (bool (available exists job.apk_path)) (
                          field "preview" (bool job.preview)
                            (field "usage" (obj job.usage) end))))))))))))
