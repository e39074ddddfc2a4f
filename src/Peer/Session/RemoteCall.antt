-- ===== src/Peer/Session/RemoteCall.antt =====
-- A message that one peer writes, read by the other: what a request runs there, and what its answer
-- does here. Peer/Session/WrittenCall.antt puts them together.
use robotframework_jsonrpcre.Base.{ℕ, String, Bool, true, false, some, ◌≡◌, ◌||◌, refl, ap}
use robotframework_jsonrpcre.Base.Dict.{lookup}
use robotframework_jsonrpcre.Base.Decimal.{decimal}
use robotframework_jsonrpcre.Value.{Value, null, text, array, object, end, fields, or_none, is_none}
use robotframework_jsonrpcre.Peer.Message.{
  JsonRpcRequest, JsonRpcNotification, JsonRpcError, result, failure, request, notification,
  response, message_value, optional, is_usable_id, error_from_dict, error_value,
  failure_of_response,
}
use robotframework_jsonrpcre.Peer.State.{
  Peer, Runtime, waiting, resolved, failed, response_error, set_future,
}
use robotframework_jsonrpcre.Peer.Responses.{deliver, handle_response}
use robotframework_jsonrpcre.Peer.Dispatch.{
  is_structure, process_request, process_notification, no_answer, with_answer, process_call,
  process_method, process_single_message,
}

-- None, an array or an object.
abbrev pub is_params : Value → Bool
is_params v = is_none v || is_structure v

data-optional : (v : Value) → or_none (lookup "data" (fields (optional "data" v end))) ≡ v
unfolding lookup
data-optional null = refl
data-optional _ = refl

-- An error comes back as it was sent, also one without data.
pub error_from_dict-error_value :
    (print : Value → String) (e : JsonRpcError) → error_from_dict print (error_value e) ≡ e
unfolding error_from_dict lookup
error_from_dict-error_value print e = λ i. record e { error_data = data-optional e.error_data i }

not-none : (v : Value) → is_usable_id v ≡ true → is_none v ≡ false
unfolding is_usable_id
not-none null h = cc
not-none _ h = refl

module _ {S P : Type 0} (env : Runtime P) where
  read_request :
      (method : String) (id params : Value) (p : Peer S P)
      → is_usable_id id ≡ true
      → is_params params ≡ true
      → let m : JsonRpcRequest = record { method = method; id = id; params = params } in
        process_single_message env (message_value (request m)) p
        ≡ with_answer (process_request env m p)
  unfolding process_single_message process_method process_call message_value lookup
  read_request method id null p h k = rw (h, not-none id h)
  read_request method id (array vs) p h k = rw (h, not-none id h)
  read_request method id (object fs) p h k = rw (h, not-none id h)
  read_request method id _ p h k = absurd (cc)

  -- A request that the other side wrote runs the handler of its method, with its params and its id.
  pub process_single_message-request :
      (m : JsonRpcRequest) (p : Peer S P)
      → is_usable_id m.id ≡ true
      → is_params m.params ≡ true
      → process_single_message env (message_value (request m)) p
        ≡ with_answer (process_request env m p)
  process_single_message-request m p h k = read_request m.method m.id m.params p h k

  read_notification :
      (method : String) (params : Value) (p : Peer S P)
      → is_params params ≡ true
      → let m : JsonRpcNotification = record { method = method; params = params } in
        process_single_message env (message_value (notification m)) p
        ≡ no_answer (process_notification env m p)
  unfolding process_single_message process_method process_call message_value lookup
  read_notification method null p k = refl
  read_notification method (array vs) p k = refl
  read_notification method (object fs) p k = refl
  read_notification method _ p k = absurd (cc)

  -- A notification that the other side wrote runs the handler of its method, and has no answer.
  pub process_single_message-notification :
      (m : JsonRpcNotification) (p : Peer S P)
      → is_params m.params ≡ true
      → process_single_message env (message_value (notification m)) p
        ≡ no_answer (process_notification env m p)
  process_single_message-notification m p k = read_notification m.method m.params p k

  -- The answer to request `n`, which waits: its future takes the result, and no other changes.
  pub response_result :
      (n : ℕ) (v : Value) (p : Peer S P)
      → lookup (decimal n) p.pending_requests ≡ some n
      → p.futures n ≡ waiting
      → (process_single_message env
          (message_value (response (result (text (decimal n)) v)))
          p).1.futures
        ≡ set_future n (resolved v) p.futures
  unfolding process_single_message handle_response deliver message_value lookup is_usable_id
      failure_of_response
  response_result n v p h w = rw (h, w, deliver)

  pub response_failure :
      (n : ℕ) (e : JsonRpcError) (p : Peer S P)
      → lookup (decimal n) p.pending_requests ≡ some n
      → p.futures n ≡ waiting
      → (process_single_message env
          (message_value (response (failure (text (decimal n)) e)))
          p).1.futures
        ≡ set_future n (failed (response_error e)) p.futures
  unfolding process_single_message handle_response deliver message_value is_usable_id
      failure_of_response lookup
  response_failure n e p h w =
      rw (h, w, deliver)
        (ap (λ (x : JsonRpcError). set_future n (failed (response_error x)) p.futures)
          (error_from_dict-error_value env.print e))
