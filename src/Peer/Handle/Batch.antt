-- ===== src/Peer/Handle/Batch.antt =====
-- The answers to a batch.
use robotframework_jsonrpcre.Base.{Option, none, some, List, [], ◌∷◌, ◌≡◌, refl, map, if◌then◌else◌}
use robotframework_jsonrpcre.Value.{Value}
use robotframework_jsonrpcre.Peer.Message.{Response, response_id}
use robotframework_jsonrpcre.Peer.State.{Peer, Runtime}
use robotframework_jsonrpcre.Peer.Dispatch.{Finished, finished, died}
use robotframework_jsonrpcre.Peer.Dispatch.Answers.{
  Answers, AnswersTo, is_silent, reply_id, process_single_message-Answers,
}
use robotframework_jsonrpcre.Peer.Handle.{cons_answer, go_on, process_all}

-- The ids under which the messages of a batch are answered, in its order.
abbrev pub expected_ids : List Value → List Value
expected_ids [] = []
expected_ids (e ∷ es) =
    let rest = expected_ids es in if is_silent e then rest else reply_id e ∷ rest

abbrev pub AnswersAll : List Value → Finished (List Response) → Type 0
AnswersAll es = Answers (λ rs. map response_id rs ≡ expected_ids es)

cons_answer-AnswersAll :
    (e : Value) (es : List Value) (o : Option Response) (r : Finished (List Response))
    → AnswersTo (is_silent e) (reply_id e) o
    → AnswersAll es r
    → AnswersAll (e ∷ es) (cons_answer o r)
cons_answer-AnswersAll e es none (finished rs) h k = rw h k
cons_answer-AnswersAll e es (some a) (finished rs) h k = rw (h.0, h.1, k) refl
cons_answer-AnswersAll e es o Finished.cancelled h k = tt
cons_answer-AnswersAll e es o (died x) h k = tt

module _ {S P : Type 0} (env : Runtime P) where
  go_on-AnswersAll :
      (e : Value) (es : List Value) (r : Finished (Option Response) × Peer S P)
      (rest : Peer S P → Finished (List Response) × Peer S P)
      → Answers (AnswersTo (is_silent e) (reply_id e)) r.0
      → ((q : Peer S P) → AnswersAll es (rest q).0)
      → AnswersAll (e ∷ es) (go_on env r rest).0
  go_on-AnswersAll e es (finished o, q) rest h k = cons_answer-AnswersAll e es o (rest q).0 h (k q)
  go_on-AnswersAll e es (Finished.cancelled, q) rest h k = tt
  go_on-AnswersAll e es (died x, q) rest h k = tt

  -- A batch that is handled to its end has one response for each message that gets an answer, in the
  -- order of the messages and with their ids; responses and notifications in it have none.
  pub process_all-ids : (es : List Value) (p : Peer S P) → AnswersAll es (process_all env es p).0
  unfolding process_all
  process_all-ids [] p = refl
  process_all-ids (e ∷ es) p =
      go_on-AnswersAll e es _ _ (process_single_message-Answers env e p) (λ q. process_all-ids es q)
