-- ===== src/Peer/Handle/Frames.antt =====
-- What handling a message leaves alone, and how many frames it writes.
use robotframework_jsonrpcre.Base.{ℕ, Option, none, some, List, [], ◌∷◌, ◌≡◌, arith, if◌then◌else◌}
use robotframework_jsonrpcre.Value.{Value, null, object, Fields, get}
use robotframework_jsonrpcre.Peer.Message.{
  Response, is_usable_id, failure_of_response, JsonRpcError,
}
use robotframework_jsonrpcre.Peer.State.{Peer, Runtime, report_problem}
use robotframework_jsonrpcre.Peer.Responses.{
  deliver, handle_response, without, still_waiting, pending_of,
}
use robotframework_jsonrpcre.Peer.Dispatch.{
  Finished, finished, died, invalid_message, process_single_message,
}
use robotframework_jsonrpcre.Peer.Dispatch.Preserves.{Preserving, process_method-Preserves}
use robotframework_jsonrpcre.Peer.Handle.{go_on, process_all}

-- What a message from the other side leaves alone until its answer is written, where its handler does
-- not use the peer.
pub record Kept {S P : Type 0} (p q : Peer S P) : Type 0 where
  pub same_config : q.config ≡ p.config
  pub same_writer : q.writer ≡ p.writer
  pub same_sent : q.sent ≡ p.sent
  pub same_requests : q.request_handlers ≡ p.request_handlers
  pub same_notifications : q.notification_handlers ≡ p.notification_handlers
  pub same_counter : q.id_counter ≡ p.id_counter
  pub same_closed : q.closed ≡ p.closed
  pub same_running : q.running ≡ p.running

module _ {S P : Type 0} where
  Kept-refl : (p : Peer S P) → Kept p p
  Kept-refl p = ground arith

  pub Kept-trans : (p q r : Peer S P) → Kept p q → Kept q r → Kept p r
  Kept-trans p q r h k = ground arith

  pub Kept-Preserving : Preserving {S = S} {P = P} Kept
  unfolding report_problem
  Kept-Preserving = record {
    same = Kept-refl;
    then = Kept-trans;
    reports = λ problem p. ground arith;
    runs = λ app p. ground arith;
  }

module _ {S P : Type 0} (env : Runtime P) where
  deliver-Kept :
      (n : Option ℕ) (e : Option JsonRpcError) (message : Fields) (id : Value) (p : Peer S P)
      → Kept p (deliver env n e message id p)
  unfolding deliver report_problem
  deliver-Kept none none message id p = Kept-refl p
  deliver-Kept none (some e) message id p = ground arith
  deliver-Kept (some n) none message id p = ground arith
  deliver-Kept (some n) (some e) message id p = ground arith

  handle_response-Kept :
      (message : Fields) (id : Value) (p : Peer S P) → Kept p (handle_response env message id p)
  unfolding handle_response report_problem
  handle_response-Kept message id p =
      let waiting = still_waiting (pending_of id p.pending_requests) p.futures in
      let rest = record p { pending_requests = without id p.pending_requests } in
      ground (arith, deliver-Kept waiting (failure_of_response env.repr message) message id rest)

  -- With handlers that do not use the peer, handling one message changes what the application holds,
  -- what was reported and, for a response, the futures and the pending requests, and nothing else; in
  -- particular it writes nothing.
  pub process_single_message-Kept :
      (v : Value) (p : Peer S P) → Kept p (process_single_message env v p).1
  unfolding process_single_message invalid_message
  process_single_message-Kept (object message) p =
      let id = get "id" message in
      ground (
        arith,
        handle_response-Kept message id p,
        Kept-Preserving.reports "Invalid JSON-RPC version" p,
        process_method-Preserves env Kept Kept-Preserving (get "method" message) message
            (if is_usable_id id then id else null) p,
      )
  process_single_message-Kept _ p = Kept-Preserving.reports _ p

  go_on-Kept :
      (p : Peer S P) (r : Finished (Option Response) × Peer S P)
      (rest : Peer S P → Finished (List Response) × Peer S P)
      → Kept p r.1
      → ((q : Peer S P) → Kept q (rest q).1)
      → Kept p (go_on env r rest).1
  go_on-Kept p (finished a, q) rest h k = Kept-trans p q (rest q).1 h (k q)
  go_on-Kept p (Finished.cancelled, q) rest h k = h
  go_on-Kept p (died x, q) rest h k = h

  process_all-Kept : (es : List Value) (p : Peer S P) → Kept p (process_all env es p).1
  unfolding process_all
  process_all-Kept [] p = Kept-refl p
  process_all-Kept (e ∷ es) p =
      go_on-Kept p _ _ (process_single_message-Kept e p) (λ q. process_all-Kept es q)
