-- ===== src/App/Documents.antt =====
-- src/service/app.py: how a body becomes a document, and the documents that the builds run.
-- Pydantic's part, the types of the fields, is the record `Pydantic`; the validators of the document
-- are those of src/prd/schema.py.
use app_generation_microserv.Base.{String, true, false, ◌≡◌, Option, none, some, if◌then◌else◌}
use app_generation_microserv.Base.Json.{Fields, end}
use app_generation_microserv.Prd.{Prd, accepts}

pub record Pydantic : Type 0 where
  -- the types of all fields and no other field, before the validators of the source
  pub typed : Fields → Option Prd
  -- `model_dump(mode="json")`
  pub dump : Prd → Fields
  -- `str(exc)` of the exception that a document raises
  pub error : Fields → String
  -- a document has required fields
  pub typed-end : typed end ≡ none
  pub typed-dump : (p : Prd) → typed (dump p) ≡ some p

module _ (D : Pydantic) where
  abbrev pub accepted : Option Prd → Option Prd
  accepted none = none
  accepted (some p) = if accepts p then some p else none

  -- `PRD.model_validate`, none where it raises
  unfoldable pub model_validate : Fields → Option Prd
  model_validate body = accepted (D.typed body)

-- `_verified_prd` and `_preview_prd`: what the buyer sent as the flag is not read.
unfoldable pub verified_prd : Prd → Prd
verified_prd prd = record prd { x402_payment_verified = true }

unfoldable pub preview_prd : Prd → Prd
preview_prd prd = record prd { x402_payment_verified = false }
