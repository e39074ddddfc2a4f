-- ===== src/Client/LogSink/Order.antt =====
-- What becomes of the messages that are handed to the log sink of src/JsonRpcRemote/__init__.py.
use mathlib.Core.List.{append_assoc, append-nil}
use robotframework_jsonrpcre.Base.{
  ℕ, suc, ◌+◌, Bool, Option, none, some, List, [], ◌∷◌, ◌++◌, ◌≡◌, refl, sym, ◌∙◌, ap, arith,
  if◌then◌else◌,
}
use robotframework_jsonrpcre.Client.LogSink.{
  LogMessage, Loop, running, closed, LogSink, new, submit_on, submit, turn_with, Event, submitted,
  attached, detached, drained, turned, loop_closed, apply, run,
}

abbrev pub messages : List Event → List LogMessage
messages [] = []
messages (submitted m ∷ events) = m ∷ messages events
messages (_ ∷ events) = messages events

-- How many messages of a list pass a test.
unfoldable pub count : (LogMessage → Bool) → List LogMessage → ℕ
count test [] = 0
count test (m ∷ ms) = let rest = count test ms in if test m then suc rest else rest

module _ (test : LogMessage → Bool) where
  count-append : (xs ys : List LogMessage) → count test (xs ++ ys) ≡ count test xs + count test ys
  unfolding count
  count-append [] ys = omega arith
  count-append (x ∷ xs) ys = ground (arith, count-append xs ys)

  count-one :
      (m : LogMessage) (xs : List LogMessage)
      → count test (m ∷ xs) ≡ count test (m ∷ []) + count test xs
  count-one m xs = count-append (m ∷ []) xs

  -- Every place in which a message can be.
  abbrev pub total : LogSink → ℕ
  total s = count test s.written + count test s.queued + count test s.waiting + count test s.dropped

  submit_on-total :
      (l : Option Loop) (m : LogMessage) (s : LogSink)
      → total (submit_on l m s) ≡ count test (m ∷ []) + total s
  submit_on-total none m s = rw (count-append s.waiting (m ∷ [])) (omega arith)
  submit_on-total (some running) m s = rw (count-append s.queued (m ∷ [])) (omega arith)
  submit_on-total (some closed) m s = rw (count-append s.waiting (m ∷ [])) (omega arith)

  turn_with-total :
      (ms : List LogMessage) (s : LogSink) → s.queued ≡ ms → total (turn_with ms s) ≡ total s
  turn_with-total [] s h = refl
  turn_with-total (m ∷ ms) s h =
      rw (h, count-append s.written (m ∷ []), count-one m ms) (omega arith)

  drained-total :
      (s : LogSink)
      → count test (s.written ++ s.waiting)
          + count test s.queued
          + count test []
          + count test s.dropped
        ≡ total s
  unfolding count
  drained-total s = rw (count-append s.written s.waiting) (omega arith)

  closed-total :
      (s : LogSink)
      → count test s.written
          + count test []
          + count test s.waiting
          + count test (s.dropped ++ s.queued)
        ≡ total s
  unfolding count
  closed-total s = rw (count-append s.dropped s.queued) (omega arith)

  run-total :
      (events : List Event) (s : LogSink)
      → total (run events s) ≡ count test (messages events) + total s
  unfolding run count
  run-total [] s = omega arith
  run-total (submitted m ∷ events) s =
      let once = submit_on-total s.loop m s in
      let rest = run-total events (submit m s) in
      let both = count-one m (messages events) in rw rest (omega arith)
  run-total (attached ∷ events) s =
      run-total events _ ∙ ap (λ n. count test (messages events) + n) (drained-total s)
  run-total (detached ∷ events) s = run-total events _
  run-total (drained ∷ events) s =
      run-total events _ ∙ ap (λ n. count test (messages events) + n) (drained-total s)
  run-total (turned ∷ events) s =
      run-total events _
      ∙ ap (λ n. count test (messages events) + n) (turn_with-total s.queued s refl)
  run-total (loop_closed ∷ events) s =
      run-total events _ ∙ ap (λ n. count test (messages events) + n) (closed-total s)

  -- In any order of keyword calls, drains, turns of the loop and its end: of the messages of the server
  -- that pass a test, whichever it is, there are as many as among those that were written, wait for a
  -- drain, wait for a turn of the loop, or were dropped by a loop that was closed before its turn. So
  -- none is lost but by a closed loop, and none comes twice.
  pub run-count :
      (events : List Event)
      → count test (run events new).written
          + count test (run events new).queued
          + count test (run events new).waiting
          + count test (run events new).dropped
        ≡ count test (messages events)
  unfolding count
  run-count events = run-total events new ∙ omega arith

-- The loop has no call left when the sink is detached from it, and when it is closed.
abbrev pub Settled : List Event → LogSink → Type 0
Settled [] s = Unit
Settled (detached ∷ events) s = (s.queued ≡ []) × Settled events (apply detached s)
Settled (loop_closed ∷ events) s = (s.queued ≡ []) × Settled events (apply loop_closed s)
Settled (e ∷ events) s = Settled events (apply e s)

-- Nothing waits for a drain while a running loop is attached, and nothing waits for a turn without one.
abbrev Direct : Option Loop → List LogMessage → List LogMessage → Type 0
Direct (some running) queued waiting = waiting ≡ []
Direct _ queued waiting = queued ≡ []

abbrev all : LogSink → List LogMessage
all s = s.written ++ (s.queued ++ s.waiting)

abbrev sink : Option Loop → (queued waiting written dropped : List LogMessage) → LogSink
sink l q p w d = record { loop = l; queued = q; waiting = p; written = w; dropped = d }

run-all :
    (events : List Event) (l : Option Loop) (q p w d : List LogMessage)
    → Direct l q p
    → Settled events (sink l q p w d)
    → all (run events (sink l q p w d)) ≡ (w ++ (q ++ p)) ++ messages events
unfolding run
run-all [] l q p w d i h = sym (append-nil _)
run-all (submitted m ∷ events) (some running) q p w d i h =
    run-all events (some running) (q ++ (m ∷ [])) p w d i h
    ∙ rw i simp (append-nil, append_assoc) refl
run-all (submitted m ∷ events) (some closed) q p w d i h =
    run-all events (some closed) q (p ++ (m ∷ [])) w d i h ∙ simp append_assoc refl
run-all (submitted m ∷ events) none q p w d i h =
    run-all events none q (p ++ (m ∷ [])) w d i h ∙ simp append_assoc refl
run-all (attached ∷ events) (some running) q p w d i h =
    run-all events (some running) q [] (w ++ p) d refl h ∙ rw i simp (append-nil, append_assoc) refl
run-all (attached ∷ events) none q p w d i h =
    run-all events (some running) q [] (w ++ p) d refl h ∙ rw i simp (append-nil, append_assoc) refl
run-all (attached ∷ events) (some closed) q p w d i h =
    run-all events (some running) q [] (w ++ p) d refl h ∙ rw i simp (append-nil, append_assoc) refl
run-all (detached ∷ events) l q p w d i (e, h) = run-all events none q p w d e h
run-all (drained ∷ events) (some running) q p w d i h =
    run-all events (some running) q [] (w ++ p) d refl h ∙ rw i simp (append-nil, append_assoc) refl
run-all (drained ∷ events) none q p w d i h =
    run-all events none q [] (w ++ p) d i h ∙ rw i simp (append-nil, append_assoc) refl
run-all (drained ∷ events) (some closed) q p w d i h =
    run-all events (some closed) q [] (w ++ p) d i h ∙ rw i simp (append-nil, append_assoc) refl
run-all (turned ∷ events) l [] p w d i h = run-all events l [] p w d i h
run-all (turned ∷ events) (some running) (m ∷ q) p w d i h =
    run-all events (some running) q p (w ++ (m ∷ [])) d i h ∙ simp append_assoc refl
run-all (turned ∷ events) none (m ∷ q) p w d i h = absurd (cc)
run-all (turned ∷ events) (some closed) (m ∷ q) p w d i h = absurd (cc)
run-all (loop_closed ∷ events) none q p w d i (e, h) =
    run-all events none [] p w (d ++ q) refl h ∙ rw e refl
run-all (loop_closed ∷ events) (some l) q p w d i (e, h) =
    run-all events (some closed) [] p w (d ++ q) refl h ∙ rw e refl

-- Where the loop has made its calls before the sink is detached from it, and before it is closed: in
-- any order of keyword calls, drains and messages, the messages of the server are written, wait for a
-- turn of the loop or wait for a drain in the order in which they arrived.
pub run_in_order :
    (events : List Event)
    → Settled events new
    → (run events new).written ++ ((run events new).queued ++ (run events new).waiting)
      ≡ messages events
run_in_order events h = run-all events none [] [] [] [] refl h
