-- ===== src/Peer/Session/Invariant.antt =====
-- No step strands a call: each call that waits has its request pending, or its future done.
use robotframework_jsonrpcre.Base.{
  ℕ, String, Bool, true, false, Option, none, some, [], ◌<◌, ◌≡◌, ◌⊎◌, inl, inr, refl, ap, arith,
  eq_iff, Bool-cases,
}
use robotframework_jsonrpcre.Base.Dict.{lookup, lookup-put, lookup-remove, remove}
use robotframework_jsonrpcre.Base.Decimal.{decimal, decimal_injective}
use robotframework_jsonrpcre.Base.Result.{Result, ok, err, >>=-succeeds, Exception}
use robotframework_jsonrpcre.Value.{Value}
use robotframework_jsonrpcre.Peer.Message.{Message}
use robotframework_jsonrpcre.Peer.State.{
  Peer, Runtime, Config, Bytes, Future, waiting, resolved, failed, dropped, connection_closed,
  response_error, done, init,
}
use robotframework_jsonrpcre.Peer.Send.{encode_message, write_frame}
use robotframework_jsonrpcre.Peer.Requests.{
  forget, register, write_error, write_failed, write_message, begun, begin_request, finish_as,
  finish_request,
}
use robotframework_jsonrpcre.Peer.Session.{
  Session, Step, calls, drain_fails, times_out, wakes, receives, answers, ends, stops, Reach, here,
  next, set_caller, waits, idle,
}
use robotframework_jsonrpcre.Peer.Session.Advance.{
  Advances, Advances-by, time_out-Advances, write_answer-Advances, end_loop-Advances, stop-Advances,
}
use robotframework_jsonrpcre.Peer.Session.Respond.{process_single_message-Advances}

pub record Sound {S P : Type 0} (p : Peer S P) (callers : ℕ → Bool) : Type 0 where
  pub keys :
      (k : String) (n : ℕ)
      → lookup k p.pending_requests ≡ some n
      → (k ≡ decimal n) × (n < p.id_counter)
  pub awaited :
      (n : ℕ)
      → callers n ≡ true
      → (n < p.id_counter)
        × ((lookup (decimal n) p.pending_requests ≡ some n) ⊎ (done (p.futures n) ≡ true))
  pub empty : p.closed ≡ true → p.pending_requests ≡ []

module _ {S P : Type 0} where
  pub Advances-Sound :
      (p q : Peer S P) (callers : ℕ → Bool) → Advances p q → Sound p callers → Sound q callers
  Advances-Sound p q callers a v = record {
    keys = λ k n h. ground (arith, v.keys k n (a.registered k n h), a.counter);
    awaited = λ n h. (
      ground (arith, v.awaited n h, a.counter),
      elim ((v.awaited n h).1) [
        | inl there ↦ a.answered (decimal n) n there
        | inr over ↦ inr (rw (a.settled n over) over)
      ],
    );
    empty = a.empties v.empty;
  }

  -- A call that ends takes its own key away and no other.
  forget-Sound :
      (n : ℕ) (p : Peer S P) (callers : ℕ → Bool)
      → Sound p callers
      → Sound (forget n p) (set_caller n false callers)
  unfolding forget
  forget-Sound n p callers v = record {
    keys = λ k m h. v.keys k m (ground (arith, lookup-remove (decimal n) k p.pending_requests));
    awaited = λ m h. ground (
      arith,
      v.awaited m,
      lookup-remove (decimal n) (decimal m) p.pending_requests,
      eq_iff (decimal n) (decimal m),
      decimal_injective n m,
    );
    empty = λ h. rw (v.empty h) (unfold remove in refl);
  }

  register-Sound :
      (p : Peer S P) (callers : ℕ → Bool)
      → p.closed ≡ false
      → Sound p callers
      → Sound (register p) (set_caller p.id_counter true callers)
  unfolding register
  register-Sound p callers live v = record {
    keys = λ k m h. ground (
      arith,
      v.keys k m,
      lookup-put (decimal p.id_counter) k p.id_counter p.pending_requests,
      eq_iff (decimal p.id_counter) k,
    );
    awaited = λ m h. ground (
      arith,
      v.awaited m,
      lookup-put (decimal p.id_counter) (decimal m) p.id_counter p.pending_requests,
      eq_iff (decimal p.id_counter) (decimal m),
      decimal_injective p.id_counter m,
      λ (e : p.id_counter ≡ m). ap decimal e,
    );
    empty = λ h. absurd (cc);
  }

  -- A call that could not be written is gone, and its number is not used again.
  abandon-Sound :
      (p : Peer S P) (callers : ℕ → Bool)
      → p.closed ≡ false
      → Sound p callers
      → Sound (forget p.id_counter (register p)) callers
  abandon-Sound p callers live v =
      let w = forget-Sound p.id_counter (register p) _ (register-Sound p callers live v) in
      record {
        keys = w.keys;
        awaited = λ m h. w.awaited m (ground (arith, v.awaited m h));
        empty = w.empty;
      }

  write_frame-Advances : (body : Bytes) (p q : Peer S P) → write_frame body p ≡ ok q → Advances p q
  unfolding write_frame
  write_frame-Advances body p q h =
      Advances-by p q (ground arith) (ground arith) (ground arith) (ground arith)

  finish_as-state :
      (env : Runtime P) (f : Future) (response_type : Option P) (n : ℕ) (p : Peer S P)
      → done f ≡ true
      → (finish_as env f response_type n p).1 ≡ forget n p
  unfolding finish_as
  finish_as-state env waiting t n p h = absurd (cc)
  finish_as-state env (resolved v) none n p h = refl
  finish_as-state env (resolved v) (some t) n p h = refl
  finish_as-state env (failed f) t n p h = refl
  finish_as-state env dropped t n p h = refl

waits-write_error :
    (f : Future) (x : Exception) (callers : ℕ → Bool) → waits (write_error f x) callers ≡ callers
waits-write_error (failed (connection_closed cause)) x callers = refl
waits-write_error (failed (response_error e)) x callers = refl
waits-write_error waiting x callers = refl
waits-write_error (resolved v) x callers = refl
waits-write_error dropped x callers = refl

module _ {S P : Type 0} (env : Runtime P) where
  write_message-Advances :
      (m : Message) (p q : Peer S P) → write_message env m p ≡ ok q → Advances p q
  unfolding write_message
  write_message-Advances m p q h =
      let (body, _, e) = >>=-succeeds (λ b. write_frame b p) (encode_message env m p) _ h in
      write_frame-Advances body p q e

  begun-Sound :
      (p : Peer S P) (callers : ℕ → Bool) (r : Result Exception (Peer S P))
      → ((q : Peer S P) → r ≡ ok q → Advances (register p) q)
      → p.closed ≡ false
      → Sound p callers
      → Sound
          (begun env p.id_counter (register p) r).1
          (waits (begun env p.id_counter (register p) r).0 callers)
  unfolding begun write_failed
  begun-Sound p callers (ok q) a live v =
      Advances-Sound (register p) q _ (a q refl) (register-Sound p callers live v)
  begun-Sound p callers (err x) a live v =
      rw (waits-write_error ((register p).futures p.id_counter) x callers)
        (abandon-Sound p callers live v)

  begin_request-Sound :
      (method : String) (params : Value) (p : Peer S P) (callers : ℕ → Bool)
      → Sound p callers
      → Sound
          (begin_request env method params p).1
          (waits (begin_request env method params p).0 callers)
  unfolding begin_request
  begin_request-Sound method params p callers v = elim (Bool-cases p.closed) [
    | inl shut ↦ simp shut v
    | inr live ↦
        simp live (begun-Sound p callers _ (λ q. write_message-Advances _ (register p) q) live v)
  ]

  -- Every step of a session keeps it sound.
  pub Step-Sound :
      {s t : Session S P} → Step env s t → Sound s.peer s.callers → Sound t.peer t.callers
  Step-Sound {s} (calls method params) v = begin_request-Sound method params s.peer s.callers v
  Step-Sound {s} (drain_fails n x h) v = unfold write_failed in forget-Sound n s.peer s.callers v
  Step-Sound {s} (times_out n h) v =
      Advances-Sound s.peer _ s.callers (time_out-Advances n s.peer) v
  Step-Sound {s} (wakes n t h over) v =
      unfold finish_request in
      rw (finish_as-state env (s.peer.futures n) t n s.peer over)
        (forget-Sound n s.peer s.callers v)
  Step-Sound {s} (receives m) v =
      Advances-Sound s.peer _ s.callers (process_single_message-Advances env m s.peer) v
  Step-Sound {s} (answers body) v =
      Advances-Sound s.peer _ s.callers (write_answer-Advances body s.peer) v
  Step-Sound {s} (ends e) v = Advances-Sound s.peer _ s.callers (end_loop-Advances e s.peer) v
  Step-Sound {s} (stops b) v = Advances-Sound s.peer _ s.callers (stop-Advances b s.peer) v

  init-Sound : (config : Config) (app : S) → Sound (init {P = P} config app) (λ _. false)
  unfolding init lookup
  init-Sound config app = record {
    keys = λ k n h. absurd (cc);
    awaited = λ n h. absurd (cc);
    empty = λ h. refl;
  }

  pub Reach-Sound :
      (config : Config) (app : S) {t : Session S P}
      → Reach env (idle config app) t
      → Sound t.peer t.callers
  Reach-Sound config app here = init-Sound config app
  Reach-Sound config app (next r st) = Step-Sound st (Reach-Sound config app r)

  -- Whatever happened before, once the connection is closed every call that still waits has its
  -- future done: it runs again and ends. No call waits for a response that cannot come.
  pub closed_strands_nobody :
      (config : Config) (app : S) {t : Session S P} (n : ℕ)
      → Reach env (idle config app) t
      → t.peer.closed ≡ true
      → t.callers n ≡ true
      → done (t.peer.futures n) ≡ true
  unfolding lookup
  closed_strands_nobody config app {t} n r shut h =
      let v = Reach-Sound config app r in ground (arith, v.awaited n h, v.empty shut)
