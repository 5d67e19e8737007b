-- ===== src/Tests/Records.antt =====
-- A saved record, calls of a queue, messages of a client and a price, on which the theorems of Jobs,
-- Queue, Mcp and Payments.Challenge hold.
use app_generation_microserv.Base.{ℕ, ◌+◌, ◌≡◌, refl, none, some, List, [], ◌∷◌, arith, map}
use app_generation_microserv.Base.Dict.{Dict}
use app_generation_microserv.Base.Int.{pos}
use app_generation_microserv.Base.Json.{Value, text, num, obj, nil, cons, Fields, end, field}
use app_generation_microserv.Payments.Challenge.{
  human_amount, shown, low_digits, rstrip_zeros, ljust_two, with_point, spelled,
}
use app_generation_microserv.Base.Text.{decimal}
use app_generation_microserv.Queue.Memory.{
  MemoryQueue, Event, pushed, reserved, renewed, acked, requeued, run as run_queue,
}
use app_generation_microserv.Queue.Memory.Custody.{custody, Follows}
use app_generation_microserv.Queue.Memory.Custody.Refinement.{run-Follows}
use app_generation_microserv.Jobs.Json.{Codec, raw}
use app_generation_microserv.Jobs.Shared.{default_store, get_shared, save_shared}
use app_generation_microserv.Jobs.Shared.Lookup.{get_shared-save_shared}
use app_generation_microserv.Mcp.{Tool, Texts, output, batch, or_object, is_truthy}
use app_generation_microserv.Mcp.Batch.{ids, answered_ids, batch-ids}
use app_generation_microserv.Tests.FakeRedis.{fake, empty_server}
use app_generation_microserv.Tests.Apps.{paid_job}

-- codecs that know one record
abbrev codec : Codec
codec = record {
  dumps = λ v. "{...}";
  loads = λ s. some (
      unfold raw in
      obj (
        raw
          (record {
            dumps = λ v. "";
            loads = λ s. none;
            isoformat = λ t. "1970-01-01T00:00:10+00:00";
            fromisoformat = λ s. none;
          })
          paid_job));
  isoformat = λ t. "1970-01-01T00:00:10+00:00";
  fromisoformat = λ s. some 10000000;
}

get_shared-save_shared_example :
    get_shared fake codec default_store 20000000 "j1"
      (save_shared fake codec default_store 10000000 paid_job empty_server)
    ≡ some paid_job
unfolding raw
get_shared-save_shared_example =
    get_shared-save_shared fake codec default_store 10000000 20000000 paid_job empty_server
      (record {
        written = refl;
        created = (refl, refl);
        finished = tt;
        seen = tt;
        receipt = λ h. cc;
      })
      (omega arith)

abbrev ping : Value
ping = obj (field "id" (num (pos 7)) (field "method" (text "ping") end))

abbrev notification : Value
notification = obj (field "method" (text "notifications/initialized") end)

abbrev texts : Texts
texts = record { str = λ v. "value"; dumps = λ v. "{}"; not_a_mapping = λ v. "not a mapping" }

abbrev tools : Dict (Tool ℕ)
tools =
    (
      "prd_schema",
      record {
        name = "prd_schema";
        description = "the schema";
        schema = end;
        run = λ arguments w. (output (obj end), w + 1);
      },
    )
    ∷ []

batch-ids_example :
    (answers : List Fields) × ((batch texts
        (cons ping (cons notification nil))
        tools
        "prd-to-flutter-apk"
        "0.1.0"
        0).0
      ≡ some answers)
    × (answered_ids answers ≡ map some (ids (cons ping (cons notification nil))))
unfolding or_object is_truthy
batch-ids_example =
    batch-ids texts (cons ping (cons notification nil)) tools "prd-to-flutter-apk" "0.1.0" 0 refl

abbrev calls : List Event
calls =
    pushed "j1"
    ∷ reserved "w1" 300 1000000
    ∷ renewed "j1" "w2" 300 2000000
    ∷ requeued 400000000
    ∷ reserved "w2" 300 500000000
    ∷ acked "j1"
    ∷ []

abbrev nothing_queued : MemoryQueue
nothing_queued = record { pending = []; leases = [] }

run-Follows_example :
    Follows "j1" calls (custody "j1" nothing_queued) (custody "j1" (run_queue calls nothing_queued))
run-Follows_example = run-Follows calls "j1" nothing_queued tt (omega arith)

shown_price : human_amount 3000000 6 ≡ "3.00"
unfolding human_amount shown low_digits rstrip_zeros ljust_two with_point spelled decimal
shown_price = refl

shown_units : human_amount 30 0 ≡ "30"
unfolding human_amount shown with_point decimal
shown_units = refl
