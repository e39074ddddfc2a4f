-- ===== src/Peer/Requests.antt =====
-- Requests and notifications that this side sends: `send_notification` and `send_request_typed` of
-- packages/jsonrpcpeer/src/jsonrpcpeer/peer.py, one function for what runs between two waits.
use robotframework_jsonrpcre.Base.{ℕ, String, Option, none, some, ◌+◌, if◌then◌else◌}
use robotframework_jsonrpcre.Base.Dict.{put, remove}
use robotframework_jsonrpcre.Base.Decimal.{decimal}
use robotframework_jsonrpcre.Base.Result.{Result, ok, err, ◌>>=◌, Exception}
use robotframework_jsonrpcre.Value.{Value, null, text, object, end, is_none}
use robotframework_jsonrpcre.Peer.Message.{Message, request, notification}
use robotframework_jsonrpcre.Peer.State.{
  Peer, Runtime, Future, waiting, resolved, failed, dropped, Failure, connection_closed, set_future,
}
use robotframework_jsonrpcre.Peer.Send.{encode_message, write_frame, drain}

-- How a call of `send_request_typed` stands or ends. `refused` and `lost` are
-- JsonRpcConnectionClosedError, the first before anything is sent; `broke` is any other exception of
-- the write or the conversion; `failed_by` is what the future was failed with.
pub data Call : Type 0 where
  pending : ℕ → Call
  refused : Call
  lost : Option Exception → Call
  broke : Exception → Call
  failed_by : Failure → Call
  cancelled : Call
  returned : Value → Call

-- The params of a request: an empty object stands for none.
abbrev request_params : Value → Value
request_params v = if is_none v then object end else v

-- What is raised if the write fails: the closure of the connection, if that has failed the future.
abbrev pub write_error : Future → Exception → Call
write_error (failed (connection_closed cause)) x = lost cause
write_error _ x = broke x

abbrev converted : Result Exception Value → Call
converted (ok v) = returned v
converted (err x) = broke x

module _ {S P : Type 0} where
  -- finally: self._pending_requests.pop(id_str, None)
  unfoldable pub forget : ℕ → Peer S P → Peer S P
  forget n p = record p { pending_requests = remove (decimal n) p.pending_requests }

  -- The new future under the next number.
  unfoldable pub register : Peer S P → Peer S P
  register p =
      let n = p.id_counter in
      record p {
        id_counter = n + 1;
        pending_requests = put (decimal n) n p.pending_requests;
        futures = set_future n waiting p.futures;
      }

  -- An exception of the write, at once or in drain().
  unfoldable pub write_failed : ℕ → Exception → Peer S P → Call × Peer S P
  unfolding forget
  write_failed n x p = (write_error (p.futures n) x, forget n p)

  -- `asyncio.wait_for` gives up: it cancels the future.
  unfoldable pub time_out : ℕ → Peer S P → Peer S P
  time_out n p = elim (p.futures n) [
    | waiting ↦ record p { futures = set_future n dropped p.futures }
    | _ ↦ p
  ]

module _ {S P : Type 0} (env : Runtime P) where
  -- The message is encoded and written.
  unfoldable pub write_message : Message → Peer S P → Result Exception (Peer S P)
  write_message m p = encode_message env m p >>= λ body. write_frame body p

  unfoldable pub begun : ℕ → Peer S P → Result Exception (Peer S P) → Call × Peer S P
  begun n p (ok q) = (pending n, q)
  begun n p (err x) = write_failed n x p

  -- Up to the write of the frame; the call then waits for drain().
  unfoldable pub begin_request : String → Value → Peer S P → Call × Peer S P
  begin_request method params p =
      let n = p.id_counter in
      let message =
        request
          (record { method = method; id = text (decimal n); params = request_params params }) in
      if p.closed then (refused, p) else begun n (register p) (write_message message (register p))

  -- What a call does when it runs again, on its future. A response type converts the result.
  unfoldable pub finish_as : Future → Option P → ℕ → Peer S P → Call × Peer S P
  finish_as waiting response_type n p = (pending n, p)
  finish_as (resolved v) none n p = (returned v, forget n p)
  finish_as (resolved v) (some t) n p = (converted (env.from_dict t v), forget n p)
  finish_as (failed f) response_type n p = (failed_by f, forget n p)
  finish_as dropped response_type n p = (cancelled, forget n p)

  unfoldable pub finish_request : Option P → ℕ → Peer S P → Call × Peer S P
  unfolding finish_as
  finish_request response_type n p = finish_as (p.futures n) response_type n p

  -- Nothing is returned: `returned null` stands for None.
  unfoldable pub send_notification : String → Value → Peer S P → Call × Peer S P
  send_notification method params p =
      if p.closed
      then (refused, p)
      else elim (encode_message env (notification (record { method = method; params = params })) p
          >>= λ body. write_frame body p) [
            | ok q ↦ elim (drain q) [ ok done ↦ (returned null, q) | err x ↦ (broke x, q) ]
            | err x ↦ (broke x, p)
          ]
