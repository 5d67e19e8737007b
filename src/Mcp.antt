-- ===== src/Mcp.antt =====
-- src/service/mcp.py: JSON-RPC over one POST. The tools are what the service registers: each takes
-- its arguments and the state `W` of the service. An exception that leaves the handler is `raised`.

pub mod Batch
use Prim.Native.String.{◌++◌}
use app_generation_microserv.Base.{
  String, ◌==◌, Bool, true, false, Option, none, some, List, [], ◌∷◌, if◌then◌else◌, contains,
}
use app_generation_microserv.Base.Dict.{Dict, lookup}
use app_generation_microserv.Base.Int.{ℤ, pos, negsuc}
use app_generation_microserv.Base.Json.{
  Value, null, num, real, text, bool, arr, obj, Items, nil, cons, Fields, end, field, get,
}

-- SUPPORTED_PROTOCOLS, and its first
abbrev pub supported_protocols : List String
supported_protocols = "2025-06-18" ∷ "2025-03-26" ∷ "2024-11-05" ∷ []

abbrev pub default_protocol : String
default_protocol = "2025-06-18"

abbrev pub method_not_found : ℤ
method_not_found = negsuc 32600

abbrev pub invalid_params : ℤ
invalid_params = negsuc 32601

-- A call of `tool.run`: what it returns, a `TypeError`, or another exception with its type's name.
pub data Ran : Type 0 where
  output : Value → Ran
  type_error : String → Ran
  exception : String → Ran

pub record Tool (W : Type 0) : Type 0 where
  pub name : String
  pub description : String
  pub schema : Fields
  pub run : Fields → W → Ran × W

-- What the handler does with one message.
pub data Reply : Type 0 where
  raised : Reply
  silent : Reply
  answer : Fields → Reply

unfoldable pub definition : {W : Type 0} → Tool W → Value
definition tool = obj (
    field "name" (text tool.name)
      (field "description" (text tool.description) (field "inputSchema" (obj tool.schema) end)))

unfoldable pub result : Value → Fields → Fields
result request_id r =
    field "jsonrpc" (text "2.0") (field "id" request_id (field "result" (obj r) end))

unfoldable pub error : Value → ℤ → String → Fields
error request_id code message = field "jsonrpc" (text "2.0") (
    field "id" request_id
      (field "error" (obj (field "code" (num code) (field "message" (text message) end))) end))

-- Python's `bool(value)`
unfoldable pub is_truthy : Value → Bool
is_truthy null = false
is_truthy (bool b) = b
is_truthy (text s) = if s == "" then false else true
is_truthy (num (pos Prim.Native.Nat.zero)) = false
is_truthy (num n) = true
is_truthy (real s) = if s == "0.0" then false else if s == "-0.0" then false else true
is_truthy (arr nil) = false
is_truthy (arr (cons v vs)) = true
is_truthy (obj end) = false
is_truthy (obj (field k v fs)) = true

-- `fields.get(key) or {}`
unfoldable pub or_object : Option Value → Value
unfolding is_truthy
or_object none = obj end
or_object (some v) = if is_truthy v then v else obj end

unfoldable pub protocol : Option Value → String
protocol (some (text s)) = if contains s supported_protocols then s else default_protocol
protocol _ = default_protocol

-- `content` of a tool's result
unfoldable pub content : String → Bool → Fields
content s is_error =
    field "content" (arr (cons (obj (field "type" (text "text") (field "text" (text s) end))) nil))
      (field "isError" (bool is_error) end)

unfoldable pub definitions : {W : Type 0} → Dict (Tool W) → Items
unfolding definition
definitions [] = nil
definitions ((name, tool) ∷ tools) = cons (definition tool) (definitions tools)

-- `str(value)`, `json.dumps(value, indent=2, default=str)`, and the text of the `TypeError` that
-- `**` raises on what is not a mapping
pub record Texts : Type 0 where
  pub str : Value → String
  pub dumps : Value → String
  pub not_a_mapping : Value → String

abbrev pub is_method : String → Option Value → Bool
is_method m (some (text s)) = s == m
is_method m _ = false

-- `params.get` raises on what is not an object
unfoldable pub initialize : Value → String → String → Value → Reply
unfolding result protocol
initialize id server_name version (obj params) = answer (
    result id (
      field "protocolVersion" (text (protocol (get "protocolVersion" params))) (
        field "capabilities" (obj (field "tools" (obj (field "listChanged" (bool false) end)) end))
          (field "serverInfo"
            (obj (field "name" (text server_name) (field "version" (text version) end))) end))))
initialize id server_name version _ = raised

-- The answers of a batch in order, or none if a message raises.
abbrev pub joined : Reply → Option (List Fields) → Option (List Fields)
joined raised rest = none
joined silent rest = rest
joined (answer a) none = none
joined (answer a) (some answers) = some (a ∷ answers)

-- One answer, a batch of them, nothing to say, or an exception.
pub data Payload : Type 0 where
  one : Fields → Payload
  many : List Fields → Payload
  nothing : Payload
  failure : Payload

abbrev pub of_reply : Reply → Payload
of_reply raised = failure
of_reply silent = nothing
of_reply (answer a) = one a

abbrev pub of_batch : Option (List Fields) → Payload
of_batch none = failure
of_batch (some []) = nothing
of_batch (some (a ∷ answers)) = many (a ∷ answers)

module _ (T : Texts) where
  unfoldable pub ran : Value → String → Ran → Fields
  unfolding result error content
  ran id name (output v) = result id (content (T.dumps v) false)
  ran id name (type_error e) = error id invalid_params ("bad arguments for " ++ name ++ ": " ++ e)
  ran id name (exception e) = result id (content e true)

  unfoldable pub method_text : Option Value → String
  method_text none = "None"
  method_text (some (text s)) = s
  method_text (some v) = T.str v

module _ (T : Texts) {W : Type 0} where
  -- `tool.run(**(params.get("arguments") or {}))`
  unfoldable pub run_tool : Value → String → Value → Tool W → W → Reply × W
  unfolding ran
  run_tool id name (obj arguments) tool w =
      let (r, w') = tool.run arguments w in (answer (ran T id name r), w')
  run_tool id name v tool w = (answer (ran T id name (type_error (T.not_a_mapping v))), w)

  unfoldable pub call_found : Value → String → Fields → Option (Tool W) → W → Reply × W
  unfolding run_tool or_object error
  call_found id name params none w =
      (answer (error id invalid_params ("no such tool: " ++ name)), w)
  call_found id name params (some tool) w =
      run_tool id name (or_object (get "arguments" params)) tool w

  -- `tools.get(name)`: a name that is a list or a dict cannot be looked up, and raises
  unfoldable pub call : Value → Fields → Dict (Tool W) → Option Value → W → Reply × W
  unfolding call_found
  call id params tools (some (text name)) w = call_found id name params (lookup name tools) w
  call id params tools (some (arr vs)) w = (raised, w)
  call id params tools (some (obj fs)) w = (raised, w)
  call id params tools (some v) w = call_found id (T.str v) params none w
  call id params tools none w = call_found id "None" params none w

  unfoldable pub tools_call : Value → Value → Dict (Tool W) → W → Reply × W
  unfolding call
  tools_call id (obj params) tools w = call id params tools (get "name" params) w
  tools_call id _ tools w = (raised, w)

  -- a message with an id
  unfoldable pub dispatch :
      Option Value → Value → Value → Dict (Tool W) → String → String → W → Reply × W
  unfolding initialize tools_call definitions result error method_text
  dispatch method id params tools server_name version w =
      if is_method "initialize" method
      then (initialize id server_name version params, w)
      else if is_method "ping" method
      then (answer (result id end), w)
      else if is_method "tools/list" method
      then (answer (result id (field "tools" (arr (definitions tools)) end)), w)
      else if is_method "tools/call" method
      then tools_call id params tools w
      else (answer (error id method_not_found ("unsupported method: " ++ method_text T method)), w)

  unfoldable pub identified :
      Option Value → Option Value → Value → Dict (Tool W) → String → String → W → Reply × W
  unfolding dispatch
  identified none method params tools server_name version w = (silent, w)
  identified (some null) method params tools server_name version w = (silent, w)
  identified (some id) method params tools server_name version w =
      dispatch method id params tools server_name version w

  unfoldable pub handle : Value → Dict (Tool W) → String → String → W → Reply × W
  unfolding identified or_object
  handle (obj message) tools server_name version w =
      identified (get "id" message) (get "method" message) (or_object (get "params" message)) tools
        server_name version w
  handle _ tools server_name version w = (raised, w)

  -- once a message has raised, those after it are not handled
  unfoldable pub batch_from : (W → Option (List Fields) × W) → Reply × W → Option (List Fields) × W
  batch_from rest (raised, w) = (none, w)
  batch_from rest (r, w) = let (answers, w') = rest w in (joined r answers, w')

  unfoldable pub batch : Items → Dict (Tool W) → String → String → W → Option (List Fields) × W
  unfolding handle batch_from
  batch nil tools server_name version w = (some [], w)
  batch (cons m ms) tools server_name version w =
      batch_from (λ w'. batch ms tools server_name version w')
        (handle m tools server_name version w)

  unfoldable pub handle_payload : Value → Dict (Tool W) → String → String → W → Payload × W
  unfolding batch handle
  handle_payload (arr messages) tools server_name version w =
      let (answers, w') = batch messages tools server_name version w in (of_batch answers, w')
  handle_payload v tools server_name version w =
      let (r, w') = handle v tools server_name version w in (of_reply r, w')
