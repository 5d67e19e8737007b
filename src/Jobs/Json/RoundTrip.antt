-- ===== src/Jobs/Json/RoundTrip.antt =====
-- src/service/jobs.py: `to_json` and `from_json`.
use app_generation_microserv.Base.{
  ℕ, String, ◌==◌, ◌≡◌, ◌≢◌, refl, Option, none, some, List, [], ◌∷◌, false,
}
use app_generation_microserv.Base.Json.{Value, null, num, text, bool, arr, obj, Fields}
use app_generation_microserv.Jobs.{BuildStatus, queued, running, succeeded, failed, BuildJob}
use app_generation_microserv.Jobs.Json.{
  Codec, status_value, status_of, items, text_or_null, value_or_null, object_or_null, stamp, raw,
  to_json, as_optional_text, as_optional_fields, as_receipt, texts, as_stamp, from_json, job_of,
}

-- a receipt that is not null
abbrev pub IsReceipt : Option Value → Type 0
IsReceipt none = Unit
IsReceipt (some v) = v ≢ null

module _ (C : Codec) where
  -- The codec of dates reads this one as it wrote it.
  abbrev pub IsDated : ℕ → Type 0
  IsDated t = (C.fromisoformat (C.isoformat t) ≡ some t) × ((C.isoformat t == "") ≡ false)

  abbrev pub IsStamped : Option ℕ → Type 0
  IsStamped none = Unit
  IsStamped (some t) = IsDated t

  -- What `json` and `datetime` promise for the dict and the dates of a record.
  pub record IsStorable (job : BuildJob) : Type 0 where
    pub written : C.loads (C.dumps (obj (raw C job))) ≡ some (obj (raw C job))
    pub created : IsDated job.created_at
    pub finished : IsStamped job.finished_at
    pub seen : IsStamped job.heartbeat_at
    pub receipt : IsReceipt job.settlement_tx

status_of-status_value : (s : BuildStatus) → status_of (status_value s) ≡ some s
unfolding status_of status_value
status_of-status_value queued = refl
status_of-status_value running = refl
status_of-status_value succeeded = refl
status_of-status_value failed = refl

optional_text-text_or_null : (o : Option String) → as_optional_text (text_or_null o) ≡ some o
optional_text-text_or_null none = refl
optional_text-text_or_null (some s) = refl

optional_fields-object_or_null :
    (o : Option Fields) → as_optional_fields (object_or_null o) ≡ some o
optional_fields-object_or_null none = refl
optional_fields-object_or_null (some fs) = refl

receipt-value_or_null : (o : Option Value) → IsReceipt o → as_receipt (value_or_null o) ≡ some o
receipt-value_or_null none h = refl
receipt-value_or_null (some null) h = absurd (h refl)
receipt-value_or_null (some (obj fs)) h = refl
receipt-value_or_null (some (arr vs)) h = refl
receipt-value_or_null (some (text s)) h = refl
receipt-value_or_null (some (num n)) h = refl
receipt-value_or_null (some (Value.real s)) h = refl
receipt-value_or_null (some (bool b)) h = refl

texts-items : (ss : List String) → texts (items ss) ≡ some ss
texts-items [] = refl
texts-items (s ∷ ss) = rw (texts-items ss) refl

module _ (C : Codec) where
  as_stamp-stamp : (o : Option ℕ) → IsStamped C o → as_stamp C (stamp C o) ≡ some o
  as_stamp-stamp none h = refl
  as_stamp-stamp (some t) (read, full) = rw (full, read) refl

  job_of-raw : (job : BuildJob) → IsStorable C job → job_of C (raw C job) ≡ some job
  unfolding raw job_of
  job_of-raw job h =
      rw
        (
          status_of-status_value job.status,
          h.created.0,
          as_stamp-stamp job.finished_at h.finished,
          texts-items job.log,
          texts-items job.diagnostics,
          optional_text-text_or_null job.failure,
          optional_text-text_or_null job.apk_path,
          optional_text-text_or_null job.build_dir,
          as_stamp-stamp job.heartbeat_at h.seen,
          receipt-value_or_null job.settlement_tx h.receipt,
          optional_fields-object_or_null job.prd,
        )
        refl

  -- What `to_json` writes of a record, `from_json` reads back to the same record.
  pub from_json-to_json :
      (job : BuildJob) → IsStorable C job → from_json C (to_json C job) ≡ some job
  unfolding from_json to_json raw
  from_json-to_json job h = rw h.written (job_of-raw job h)
