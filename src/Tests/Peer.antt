-- ===== src/Tests/Peer.antt =====
-- The theorems on packages/jsonrpcpeer/src/jsonrpcpeer/peer.py at concrete inputs.
use robotframework_jsonrpcre.Base.{ℕ, true, false, some, [], ◌∷◌, ◌≡◌, refl, eq_refl}
use robotframework_jsonrpcre.Base.Dict.{lookup}
use robotframework_jsonrpcre.Base.Decimal.{decimal}
use robotframework_jsonrpcre.Base.Int.{pos}
use robotframework_jsonrpcre.Base.Result.{ok}
use robotframework_jsonrpcre.Value.{null, integer, text}
use robotframework_jsonrpcre.Peer.Message.{
  JsonRpcError, JsonRpcRequest, JsonRpcNotification, Response, result, request, response,
  notification, message_value, error_value, error_from_dict, is_usable_id,
}
use robotframework_jsonrpcre.Peer.State.{
  Peer, Runtime, Config, Callable, HandlerEntry, Outcome, done, init, resolved,
}
use robotframework_jsonrpcre.Peer.Dispatch.{
  process_single_message, process_request, with_answer, call_handler, run_handler, answer_call,
  finished,
}
use robotframework_jsonrpcre.Peer.Dispatch.Answers.{
  Answers, AnswersTo, process_single_message-Answers,
}
use robotframework_jsonrpcre.Peer.Send.{encode_message, write_frame}
use robotframework_jsonrpcre.Peer.Handle.{handle_message, process_all}
use robotframework_jsonrpcre.Peer.Handle.Batch.{AnswersAll, process_all-ids}
use robotframework_jsonrpcre.Peer.Handle.Written.{WritesErrors, Writes, handle_message-Writes}
use robotframework_jsonrpcre.Peer.Requests.{begin_request, begun, register, write_message}
use robotframework_jsonrpcre.Peer.Lifecycle.{stopped, end_loop, finish, mark_closed}
use robotframework_jsonrpcre.Peer.Session.{here, next, calls, ends}
use robotframework_jsonrpcre.Peer.Session.Invariant.{closed_strands_nobody}
use robotframework_jsonrpcre.Peer.Session.WrittenCall.{Ends, ReadsAnswer, written_call}
use robotframework_jsonrpcre.Peer.Session.RemoteCall.{
  error_from_dict-error_value, process_single_message-request,
}

abbrev pub config : Config
config = record {
  max_message_size = some 100;
  auto_close = true;
  send_tracebacks = false;
  content_type_field = [];
}

abbrev sum_request : JsonRpcRequest
sum_request = record { method = "sum"; id = text "1"; params = null }

abbrev ping : JsonRpcNotification
ping = record { method = "ping"; params = null }

abbrev pub env : Runtime ℕ
env = record {
  any_type = 0;
  is_peer_type = λ t. false;
  from_dict = λ t v. ok v;
  print = λ v. "";
  repr = λ v. "";
  loads = λ s. ok (message_value (request sum_request));
  dumps = λ v. ok "{}";
  encode = λ s. ok (1 ∷ 2 ∷ []);
  encode_any = λ s. 1 ∷ [];
  decode = λ b. "";
  rstrip = λ s. s;
}

abbrev pub counter : Callable ℕ ℕ
counter = record {
  hints = some 0 ∷ [];
  call = λ with_peer v n. (Outcome.returned (integer (pos n)), n);
}

abbrev counter_entry : HandlerEntry ℕ ℕ
counter_entry = record { handler = counter; param_type = 0; pass_peer = false }

abbrev pub fresh : Peer ℕ ℕ
fresh = init config 7

-- A peer that has a handler for "sum".
abbrev serving : Peer ℕ ℕ
serving = record (init config 7) { request_handlers = ("sum", counter_entry) ∷ [] }

-- A peer whose request 1 waits.
abbrev asking : Peer ℕ ℕ
asking = record (init config 7) { pending_requests = (decimal 1, 1) ∷ [] }

writes : WritesErrors env
writes id error_data problem h k = ("{}", refl)

closed_strands_nobody_example :
    done ((end_loop stopped (begin_request env "sum" null fresh).1).futures 1) ≡ true
unfolding begin_request begun register write_message encode_message write_frame end_loop finish
    mark_closed init
closed_strands_nobody_example =
    closed_strands_nobody {S = ℕ} env config 7 1
      (next (next here (calls "sum" null)) (ends stopped)) refl refl

abbrev first_request : JsonRpcRequest
first_request = record { method = "sum"; id = text (decimal 1); params = null }

-- The answer 7 to request 1, as the other side reads it.
abbrev reading : Runtime ℕ
reading = record env {
  loads = λ s. ok (message_value (response (result (text (decimal 1)) (integer (pos 7)))));
}

abbrev serves : Runtime ℕ
serves = record env { loads = λ s. ok (message_value (request first_request)) }

reads_answer :
    (r : Response)
    → (answer_call (text (decimal 1)) (call_handler serves counter_entry null serving)).0
      ≡ finished r
    → ReadsAnswer reading serves (call_handler serves counter_entry null serving).1 r
unfolding call_handler run_handler answer_call encode_message init
reads_answer r h =
    let same : result (text (decimal 1)) (integer (pos 7)) ≡ r = cc in
    rw (← same) ((λ body k. refl), (λ x s k. absurd (cc)))

written_call_example :
    Ends reading serves writes serving.config.content_type_field [] 1 asking
      (some (resolved (integer (pos 7))))
      (handle_message serves "" serving)
unfolding lookup init call_handler run_handler encode_message
written_call_example =
    written_call reading serves writes 1 "sum" null counter_entry asking serving (1 ∷ 2 ∷ [])
      (rw (eq_refl (decimal 1)) refl) refl refl refl refl refl (λ h. refl) reads_answer

-- A peer for which the answer is longer than a message may be.
abbrev strict : Peer ℕ ℕ
strict = record serving { config = record config { max_message_size = some 1 } }

process_single_message-Answers_example :
    Answers
      (AnswersTo false (text "1"))
      (process_single_message env (message_value (request sum_request)) serving).0
unfolding message_value lookup is_usable_id
process_single_message-Answers_example =
    process_single_message-Answers env (message_value (request sum_request)) serving

handle_message-Writes_example :
    Answers
      (λ _. Writes false serving (handle_message env "{}" serving).1)
      (handle_message env "{}" serving).0
unfolding message_value init lookup
handle_message-Writes_example =
    handle_message-Writes env writes "{}" (message_value (request sum_request)) serving refl refl
      refl

process_all-ids_example :
    AnswersAll
      (message_value (request sum_request) ∷ message_value (notification ping) ∷ [])
      (process_all env
        (message_value (request sum_request) ∷ message_value (notification ping) ∷ [])
        serving).0
process_all-ids_example =
    process_all-ids env
      (message_value (request sum_request) ∷ message_value (notification ping) ∷ []) serving

process_single_message-request_example :
    process_single_message env (message_value (request sum_request)) serving
    ≡ with_answer (process_request env sum_request serving)
unfolding is_usable_id
process_single_message-request_example =
    process_single_message-request env sum_request serving refl refl

abbrev an_error : JsonRpcError
an_error = record { code = integer (pos 5); message = "no"; error_data = null }

error_from_dict-error_value_example : error_from_dict env.print (error_value an_error) ≡ an_error
error_from_dict-error_value_example = error_from_dict-error_value env.print an_error
