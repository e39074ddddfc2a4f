-- ===== src/Peer/Session/Respond.antt =====
-- What a message from the other side does to the futures and the pending requests.
use robotframework_jsonrpcre.Base.{
  ℕ, String, true, false, Option, none, some, ◌≡◌, refl, inl, inr, arith, eq_iff, ap, if◌then◌else◌,
  Option-cases, Bool-cases,
}
use robotframework_jsonrpcre.Base.Dict.{lookup, remove, lookup-remove}
use robotframework_jsonrpcre.Value.{Value, text, integer, object, Fields, get, null, is_none}
use robotframework_jsonrpcre.Peer.Message.{is_usable_id, error_from_dict, JsonRpcError}
use robotframework_jsonrpcre.Peer.State.{
  Peer, Runtime, Future, failed, resolved, response_error, done, set_future,
}
use robotframework_jsonrpcre.Peer.Responses.{
  still_waiting, deliver, handle_response, unlabelled_problem,
}
use robotframework_jsonrpcre.Peer.Dispatch.{process_single_message, invalid_message}
use robotframework_jsonrpcre.Peer.Dispatch.Preserves.{process_method-Preserves}
use robotframework_jsonrpcre.Peer.Session.Advance.{
  Advances, Advances-refl, Advances-trans, Advances-Preserving,
}

module _ {S P : Type 0} where
  resolve-Advances :
      (s : String) (n : ℕ) (v : Future) (p : Peer S P)
      → lookup s p.pending_requests ≡ some n
      → done (p.futures n) ≡ false
      → done v ≡ true
      → Advances p (record p {
        pending_requests = remove s p.pending_requests;
        futures = set_future n v p.futures;
      })
  resolve-Advances s n v p found open_yet over = record {
    settled = λ m h. ground (arith, λ (e : n ≡ m). ap p.futures e);
    registered = λ k m h. ground (arith, lookup-remove s k p.pending_requests);
    answered = λ k m h. ground (arith, lookup-remove s k p.pending_requests, eq_iff s k);
    counter = refl;
    closes = λ h. h;
    empties = λ e h. rw (e h) (unfold remove in refl);
  }

  drop-Advances :
      (s : String) (p : Peer S P)
      → ((n : ℕ) → lookup s p.pending_requests ≡ some n → done (p.futures n) ≡ true)
      → Advances p (record p { pending_requests = remove s p.pending_requests })
  drop-Advances s p over = record {
    settled = λ m h. refl;
    registered = λ k m h. ground (arith, lookup-remove s k p.pending_requests);
    answered = λ k m h. ground (arith, lookup-remove s k p.pending_requests, eq_iff s k, over m);
    counter = refl;
    closes = λ h. h;
    empties = λ e h. rw (e h) (unfold remove in refl);
  }

module _ {S P : Type 0} (env : Runtime P) where
  deliver-none-Advances :
      (e : Option JsonRpcError) (message : Fields) (id : Value) (p q : Peer S P)
      → Advances p q
      → Advances p (deliver env none e message id q)
  unfolding deliver
  deliver-none-Advances none message id p q a = a
  deliver-none-Advances (some e) message id p q a =
      Advances-trans p q _ a (Advances-Preserving.reports _ q)

  -- What waits is resolved or failed.
  pub deliver-some :
      (n : ℕ) (e : Option JsonRpcError) (message : Fields) (id : Value) (q : Peer S P)
      → (v : Future) × (done v ≡ true)
        × (deliver env (some n) e message id q ≡ record q { futures = set_future n v q.futures })
  unfolding deliver
  deliver-some n (some e) message id q = (failed (response_error e), refl, refl)
  deliver-some n none message id q = elim (Bool-cases (is_none (get "error" message))) [
    | inl plain ↦ (resolved (get "result" message), refl, rw (plain, deliver) refl)
    | inr bad ↦ (
      failed (response_error (error_from_dict env.print (get "error" message))),
      refl,
      rw (bad, deliver) refl,
    )
  ]

  respond-Advances :
      (s : String) (e : Option JsonRpcError) (message : Fields) (p : Peer S P)
      → Advances p (
          deliver env
            (still_waiting (lookup s p.pending_requests) p.futures)
            e
            message
            (text s)
            (record p { pending_requests = remove s p.pending_requests }))
  respond-Advances s e message p = elim (Option-cases (lookup s p.pending_requests)) [
    | inl missing ↦
        rw missing (deliver-none-Advances e message (text s) p _ (drop-Advances s p (λ n h. cc)))
    | inr (n, found) ↦ elim (Bool-cases (done (p.futures n))) [
      | inl over ↦
          rw (found, over)
            (deliver-none-Advances e message (text s) p _
              (drop-Advances s p (λ m h. ground (arith, λ (i : n ≡ m). ap p.futures i))))
      | inr open_yet ↦
          let (v, dn, eq) =
            deliver-some n e message (text s)
              (record p { pending_requests = remove s p.pending_requests }) in
          rw (found, open_yet) (rw eq (resolve-Advances s n v p found open_yet dn))
    ]
  ]

  handle_response-Advances :
      (message : Fields) (id : Value) (p : Peer S P) → Advances p (handle_response env message id p)
  unfolding handle_response is_usable_id
  handle_response-Advances message (text s) p = respond-Advances s _ message p
  handle_response-Advances message (integer n) p =
      deliver-none-Advances _ message (integer n) p p (Advances-refl p)
  handle_response-Advances message null p = ground (
    arith,
    Advances-Preserving.reports "Received a response without an id and without an error" p,
    Advances-Preserving.reports
        (unlabelled_problem env (error_from_dict env.print (get "error" message))) p,
  )
  handle_response-Advances message _ p = Advances-Preserving.reports _ p

  pub process_single_message-Advances :
      (v : Value) (p : Peer S P) → Advances p (process_single_message env v p).1
  unfolding process_single_message invalid_message
  process_single_message-Advances (object message) p =
      let id = get "id" message in
      ground (
        arith,
        handle_response-Advances message id p,
        Advances-Preserving.reports "Invalid JSON-RPC version" p,
        process_method-Preserves env Advances Advances-Preserving (get "method" message) message
            (if is_usable_id id then id else null) p,
      )
  process_single_message-Advances _ p = Advances-Preserving.reports _ p
