-- ===== src/Peer/Responses.antt =====
-- How an incoming response reaches the request that waits for it: `_handle_response` of
-- packages/jsonrpcpeer/src/jsonrpcpeer/peer.py.
use robotframework_jsonrpcre.Base.{
  ℕ, String, Option, none, some, [], ◌∷◌, not, format, if◌then◌else◌,
}
use robotframework_jsonrpcre.Base.Dict.{Dict, lookup, remove}
use robotframework_jsonrpcre.Value.{Value, text, Fields, is_none, get}
use robotframework_jsonrpcre.Peer.Message.{
  JsonRpcError, is_usable_id, str_of, error_from_dict, failure_of_response,
}
use robotframework_jsonrpcre.Peer.State.{
  Peer, Runtime, Future, resolved, failed, response_error, done, set_future, report_problem,
}

-- `_pending_requests.pop(id_value, None)`: every key is a text, and no number equals one.
abbrev pub pending_of : Value → Dict ℕ → Option ℕ
pending_of (text s) d = lookup s d
pending_of _ d = none

abbrev pub without : Value → Dict ℕ → Dict ℕ
without (text s) d = remove s d
without _ d = d

-- A future that is done already counts as nobody waiting.
abbrev pub still_waiting : Option ℕ → (ℕ → Future) → Option ℕ
still_waiting none futures = none
still_waiting (some n) futures = if done (futures n) then none else some n

module _ {P : Type 0} (env : Runtime P) where
  details : Value → String
  details error_data =
      if is_none error_data then "" else format (" (" ∷ str_of env.print error_data ∷ ")" ∷ [])

  pub unlabelled_problem : JsonRpcError → String
  unlabelled_problem e = format (
      "Received an error without an id: "
      ∷ str_of env.print e.code
      ∷ ": "
      ∷ e.message
      ∷ details e.error_data
      ∷ [])

module _ {S P : Type 0} (env : Runtime P) where
  -- The end of `_handle_response`, on the future that waits and the failure of the response.
  unfoldable pub deliver : Option ℕ → Option JsonRpcError → Fields → Value → Peer S P → Peer S P
  deliver none none message id p = p
  deliver none (some problem) message id p =
      report_problem
        (format
          ("Received an invalid response to request " ∷ env.repr id ∷ ": " ∷ problem.message ∷ []))
        p
  deliver (some n) (some problem) message id p = record p {
    futures = set_future n (failed (response_error problem)) p.futures;
  }
  deliver (some n) none message id p =
      if not (is_none (get "error" message))
      then record p {
        futures =
            set_future n (failed (response_error (error_from_dict env.print (get "error" message))))
              p.futures;
      }
      else record p { futures = set_future n (resolved (get "result" message)) p.futures }

  unfoldable pub handle_response : Fields → Value → Peer S P → Peer S P
  handle_response message id p =
      if is_none id
      then if is_none (get "error" message)
        then report_problem "Received a response without an id and without an error" p
        else report_problem
            (unlabelled_problem env (error_from_dict env.print (get "error" message))) p
      else if not (is_usable_id id)
      then report_problem (format ("Received a response with an invalid id: " ∷ env.repr id ∷ [])) p
      else deliver (still_waiting (pending_of id p.pending_requests) p.futures)
          (failure_of_response env.repr message) message id
          (record p { pending_requests = without id p.pending_requests })
