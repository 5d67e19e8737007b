-- ===== src/Mcp/Batch.antt =====
-- src/service/mcp.py: which messages are answered, and how the answers name them.
use app_generation_microserv.Base.{
  String, ◌≡◌, refl, inl, inr, Bool, true, false, ◌&&◌, Option, none, some, List, [], ◌∷◌, map,
  arith, Bool-cases,
}
use app_generation_microserv.Base.Dict.{Dict, lookup}
use app_generation_microserv.Base.Json.{
  Value, null, num, real, text, bool, arr, obj, Items, nil, cons, Fields, get,
}
use app_generation_microserv.Mcp.{
  Tool, Reply, silent, answer, Ran, output, type_error, exception, Texts, result, error, or_object,
  ran, run_tool, call_found, call, initialize, tools_call, is_method, dispatch, identified, handle,
  batch_from, batch,
}

abbrev pub can_be_looked_up : Option Value → Bool
can_be_looked_up (some (arr vs)) = false
can_be_looked_up (some (obj fs)) = false
can_be_looked_up _ = true

abbrev pub good_params : Value → Bool
good_params (obj params) = can_be_looked_up (get "name" params)
good_params _ = false

-- An object whose `params`, if there are any, are an object, and name no tool by a list or an object.
abbrev pub is_message : Value → Bool
is_message (obj message) = good_params (or_object (get "params" message))
is_message _ = false

abbrev pub are_messages : Items → Bool
are_messages nil = true
are_messages (cons m ms) = is_message m && are_messages ms

-- the ids of the messages that have one, in order
abbrev pub with_id : Option Value → List Value → List Value
with_id none ids = ids
with_id (some null) ids = ids
with_id (some id) ids = id ∷ ids

abbrev pub ids : Items → List Value
ids nil = []
ids (cons (obj message) ms) = with_id (get "id" message) (ids ms)
ids (cons _ ms) = ids ms

abbrev pub answered_ids : List Fields → List (Option Value)
answered_ids answers = map (λ a. get "id" a) answers

-- The reply to a message with an id is an answer with that id, and to another there is none.
abbrev pub IsReply : Option Value → Reply → Type 0
IsReply none r = r ≡ silent
IsReply (some null) r = r ≡ silent
IsReply (some id) r = (a : Fields) × (r ≡ answer a) × (get "id" a ≡ some id)

abbrev IsAnswer : Value → Reply → Type 0
IsAnswer id r = (a : Fields) × (r ≡ answer a) × (get "id" a ≡ some id)

module _ (T : Texts) where
  ran-id : (id : Value) (name : String) (r : Ran) → get "id" (ran T id name r) ≡ some id
  unfolding ran result error
  ran-id id name (output v) = refl
  ran-id id name (type_error e) = refl
  ran-id id name (exception e) = refl

module _ (T : Texts) {W : Type 0} where
  run_tool-IsAnswer :
      (id : Value) (name : String) (v : Value) (tool : Tool W) (w : W)
      → IsAnswer id (run_tool T id name v tool w).0
  unfolding run_tool
  run_tool-IsAnswer id name (obj arguments) tool w =
      (_, refl, ran-id T id name (tool.run arguments w).0)
  run_tool-IsAnswer id name (arr v) tool w =
      (_, refl, ran-id T id name (type_error (T.not_a_mapping (arr v))))
  run_tool-IsAnswer id name (text v) tool w =
      (_, refl, ran-id T id name (type_error (T.not_a_mapping (text v))))
  run_tool-IsAnswer id name (num v) tool w =
      (_, refl, ran-id T id name (type_error (T.not_a_mapping (num v))))
  run_tool-IsAnswer id name (real v) tool w =
      (_, refl, ran-id T id name (type_error (T.not_a_mapping (real v))))
  run_tool-IsAnswer id name (bool v) tool w =
      (_, refl, ran-id T id name (type_error (T.not_a_mapping (bool v))))
  run_tool-IsAnswer id name null tool w =
      (_, refl, ran-id T id name (type_error (T.not_a_mapping null)))

  call_found-IsAnswer :
      (id : Value) (name : String) (params : Fields) (o : Option (Tool W)) (w : W)
      → IsAnswer id (call_found T id name params o w).0
  unfolding call_found error
  call_found-IsAnswer id name params none w = (_, refl, refl)
  call_found-IsAnswer id name params (some tool) w =
      run_tool-IsAnswer id name (or_object (get "arguments" params)) tool w

  call-IsAnswer :
      (id : Value) (params : Fields) (tools : Dict (Tool W)) (o : Option Value) (w : W)
      → can_be_looked_up o ≡ true
      → IsAnswer id (call T id params tools o w).0
  unfolding call
  call-IsAnswer id params tools none w h = call_found-IsAnswer id "None" params none w
  call-IsAnswer id params tools (some (text name)) w h =
      call_found-IsAnswer id name params (lookup name tools) w
  call-IsAnswer id params tools (some (arr vs)) w h = cc
  call-IsAnswer id params tools (some (obj fs)) w h = cc
  call-IsAnswer id params tools (some (num n)) w h =
      call_found-IsAnswer id (T.str (num n)) params none w
  call-IsAnswer id params tools (some (real n)) w h =
      call_found-IsAnswer id (T.str (real n)) params none w
  call-IsAnswer id params tools (some (bool n)) w h =
      call_found-IsAnswer id (T.str (bool n)) params none w
  call-IsAnswer id params tools (some null) w h = call_found-IsAnswer id (T.str null) params none w

  dispatch-IsAnswer :
      (method : Option Value) (id params : Value) (tools : Dict (Tool W))
      (server_name version : String) (w : W)
      → good_params params ≡ true
      → IsAnswer id (dispatch T method id params tools server_name version w).0
  unfolding dispatch initialize tools_call result error
  dispatch-IsAnswer method id (obj params) tools server_name version w h =
      elim (Bool-cases (is_method "initialize" method)) [
        | inl a ↦ rw a (_, refl, refl)
        | inr a ↦ elim (Bool-cases (is_method "ping" method)) [
          | inl b ↦ rw (a, b) (_, refl, refl)
          | inr b ↦ elim (Bool-cases (is_method "tools/list" method)) [
            | inl c ↦ rw (a, b, c) (_, refl, refl)
            | inr c ↦ elim (Bool-cases (is_method "tools/call" method)) [
              | inl d ↦ rw (a, b, c, d) (call-IsAnswer id params tools (get "name" params) w h)
              | inr d ↦ rw (a, b, c, d) (_, refl, refl)
            ]
          ]
        ]
      ]
  dispatch-IsAnswer method id (arr v) tools server_name version w h = cc
  dispatch-IsAnswer method id (text v) tools server_name version w h = cc
  dispatch-IsAnswer method id (num v) tools server_name version w h = cc
  dispatch-IsAnswer method id (real v) tools server_name version w h = cc
  dispatch-IsAnswer method id (bool v) tools server_name version w h = cc
  dispatch-IsAnswer method id null tools server_name version w h = cc

  identified-IsReply :
      (o method : Option Value) (params : Value) (tools : Dict (Tool W))
      (server_name version : String) (w : W)
      → good_params params ≡ true
      → IsReply o (identified T o method params tools server_name version w).0
  unfolding identified
  identified-IsReply none method params tools server_name version w h = refl
  identified-IsReply (some null) method params tools server_name version w h = refl
  identified-IsReply (some (obj v)) method params tools server_name version w h =
      dispatch-IsAnswer method (obj v) params tools server_name version w h
  identified-IsReply (some (arr v)) method params tools server_name version w h =
      dispatch-IsAnswer method (arr v) params tools server_name version w h
  identified-IsReply (some (text v)) method params tools server_name version w h =
      dispatch-IsAnswer method (text v) params tools server_name version w h
  identified-IsReply (some (num v)) method params tools server_name version w h =
      dispatch-IsAnswer method (num v) params tools server_name version w h
  identified-IsReply (some (real v)) method params tools server_name version w h =
      dispatch-IsAnswer method (real v) params tools server_name version w h
  identified-IsReply (some (bool v)) method params tools server_name version w h =
      dispatch-IsAnswer method (bool v) params tools server_name version w h

  abbrev IsAnsweredBy : List Value → Option (List Fields) × W → Type 0
  IsAnsweredBy expected o =
      (answers : List Fields) × (o.0 ≡ some answers) × (answered_ids answers ≡ map some expected)

  silent-step :
      (r : Reply) (w : W) (rest : W → Option (List Fields) × W) (expected : List Value)
      → r ≡ silent
      → ((w' : W) → IsAnsweredBy expected (rest w'))
      → IsAnsweredBy expected (batch_from T rest (r, w))
  unfolding batch_from
  silent-step r w rest expected h ih = rw h (ih w)

  answer-step :
      (id : Value) (r : Reply) (w : W) (rest : W → Option (List Fields) × W) (expected : List Value)
      → IsAnswer id r
      → ((w' : W) → IsAnsweredBy expected (rest w'))
      → IsAnsweredBy (id ∷ expected) (batch_from T rest (r, w))
  unfolding batch_from
  answer-step id r w rest expected (a, e, i) ih =
      let (answers, e', i') = ih w in rw e (a ∷ answers, rw e' refl, rw (i, i') refl)

  -- One reply, and the answers of the messages after it.
  joined-ids :
      (o : Option Value) (r : Reply) (w : W) (rest : W → Option (List Fields) × W)
      (expected : List Value)
      → IsReply o r
      → ((w' : W) → IsAnsweredBy expected (rest w'))
      → IsAnsweredBy (with_id o expected) (batch_from T rest (r, w))
  joined-ids none r w rest expected h ih = silent-step r w rest expected h ih
  joined-ids (some null) r w rest expected h ih = silent-step r w rest expected h ih
  joined-ids (some (obj v)) r w rest expected h ih = answer-step (obj v) r w rest expected h ih
  joined-ids (some (arr v)) r w rest expected h ih = answer-step (arr v) r w rest expected h ih
  joined-ids (some (text v)) r w rest expected h ih = answer-step (text v) r w rest expected h ih
  joined-ids (some (num v)) r w rest expected h ih = answer-step (num v) r w rest expected h ih
  joined-ids (some (real v)) r w rest expected h ih = answer-step (real v) r w rest expected h ih
  joined-ids (some (bool v)) r w rest expected h ih = answer-step (bool v) r w rest expected h ih

  -- In a batch in which every message is an object, whose `params` are falsy or an object that gives
  -- no list and no object as `name`, every message with an id is answered once, and in order, under
  -- its own id, and those without are not answered, whatever the tools do.
  pub batch-ids :
      (messages : Items) (tools : Dict (Tool W)) (server_name version : String) (w : W)
      → are_messages messages ≡ true
      → (answers : List Fields) × ((batch T messages tools server_name version w).0 ≡ some answers)
        × (answered_ids answers ≡ map some (ids messages))
  unfolding batch handle
  batch-ids nil tools server_name version w h = ([], refl, refl)
  batch-ids (cons (obj message) ms) tools server_name version w h =
      let method = get "method" message in
      let params = or_object (get "params" message) in
      elim (Bool-cases (good_params params)) [
        | inl good ↦
            (let r = identified T (get "id" message) method params tools server_name version w in
              joined-ids (get "id" message) r.0 r.1 (λ w'. batch T ms tools server_name version w')
                (ids ms)
                (identified-IsReply (get "id" message) method params tools server_name version w
                  good)
                (λ w'. batch-ids ms tools server_name version w' (rw good at h)))
        | inr bad ↦ absurd (ground (arith, bad, h))
      ]
  batch-ids (cons (arr v) ms) tools server_name version w h = cc
  batch-ids (cons (text v) ms) tools server_name version w h = cc
  batch-ids (cons (num v) ms) tools server_name version w h = cc
  batch-ids (cons (real v) ms) tools server_name version w h = cc
  batch-ids (cons (bool v) ms) tools server_name version w h = cc
  batch-ids (cons null ms) tools server_name version w h = cc
