-- ===== src/Peer/Handle.antt =====
-- A message from its text to its answer: `handle_message` and `_handle_batch` of
-- packages/jsonrpcpeer/src/jsonrpcpeer/peer.py.
pub mod Frames
pub mod Written
pub mod Batch
use Prim.Native.String
use robotframework_jsonrpcre.Base.{String, Option, none, some, List, [], ◌∷◌, format}
use robotframework_jsonrpcre.Base.Text.{join}
use robotframework_jsonrpcre.Base.Result.{Result, ok, err, ◌>>=◌, Exception}
use robotframework_jsonrpcre.Value.{Value, null, array, items}
use robotframework_jsonrpcre.Peer.Message.{parse_error, invalid_request, Response}
use robotframework_jsonrpcre.Peer.State.{Peer, Runtime, Bytes, traceback_data}
use robotframework_jsonrpcre.Peer.Dispatch.{Finished, finished, died, process_single_message}
use robotframework_jsonrpcre.Peer.Dispatch
use robotframework_jsonrpcre.Peer.Send.{encode_response, write_encoded, answer_problem}

abbrev answers : Option Response → List Response → List Response
answers none rs = rs
answers (some r) rs = r ∷ rs

abbrev pub cons_answer : Option Response → Finished (List Response) → Finished (List Response)
cons_answer r (finished rs) = finished (answers r rs)
cons_answer r Dispatch.cancelled = Finished.cancelled
cons_answer r (died x) = died x

module _ {S P : Type 0} (env : Runtime P) where
  -- The rest of the loop runs if the element came to its end.
  abbrev pub go_on :
      Finished (Option Response) × Peer S P
      → (Peer S P → Finished (List Response) × Peer S P)
      → Finished (List Response) × Peer S P
  go_on (finished r, p) rest = let (rs, q) = rest p in (cons_answer r rs, q)
  go_on (Finished.cancelled, p) rest = (Finished.cancelled, p)
  go_on (died x, p) rest = (died x, p)

  -- The loop of `_handle_batch`, and the responses that it collects.
  unfoldable pub process_all : List Value → Peer S P → Finished (List Response) × Peer S P
  process_all [] p = (finished [], p)
  process_all (e ∷ es) p = go_on (process_single_message env e p) (λ q. process_all es q)

  -- Each response on its own, as a text without the line end.
  unfoldable pub encode_items : List Response → Peer S P → Result Exception (List String)
  encode_items [] p = ok []
  encode_items (r ∷ rs) p = do
    body ← encode_response env r p
    texts ← encode_items rs p
    ok (env.rstrip (env.decode body) ∷ texts)

  unfoldable pub encode_batch : List Response → Peer S P → Result Exception Bytes
  unfolding encode_items
  encode_batch rs p = do
    texts ← encode_items rs p
    env.encode (format ("[" ∷ join "," texts ∷ "]\r\n" ∷ []))

  unfoldable pub write_batch : Finished (List Response) × Peer S P → Finished (Unit {0}) × Peer S P
  write_batch (finished [], p) = (finished tt, p)
  write_batch (finished (r ∷ rs), p) = write_encoded env (encode_batch (r ∷ rs) p) p
  write_batch (Finished.cancelled, p) = (Finished.cancelled, p)
  write_batch (died x, p) = (died x, p)

  unfoldable pub handle_batch : List Value → Peer S P → Finished (Unit {0}) × Peer S P
  handle_batch [] p =
      answer_problem env invalid_request "Invalid Request: batch must not be empty" null p
  handle_batch (e ∷ es) p = write_batch (process_all (e ∷ es) p)

  unfoldable pub write_single :
      Finished (Option Response) × Peer S P → Finished (Unit {0}) × Peer S P
  write_single (finished none, p) = (finished tt, p)
  write_single (finished (some r), p) = write_encoded env (encode_response env r p) p
  write_single (Finished.cancelled, p) = (Finished.cancelled, p)
  write_single (died x, p) = (died x, p)

  abbrev handle_element : Value → Peer S P → Finished (Unit {0}) × Peer S P
  handle_element (array vs) p = handle_batch (items vs) p
  handle_element v p = write_single (process_single_message env v p)

  unfoldable pub handle_message : String → Peer S P → Finished (Unit {0}) × Peer S P
  handle_message json_str p = elim (env.loads json_str) [
    | ok v ↦ handle_element v p
    | err x ↦
        answer_problem env parse_error (format ("Parse error: " ∷ x.message ∷ []))
          (traceback_data x p) p
  ]
