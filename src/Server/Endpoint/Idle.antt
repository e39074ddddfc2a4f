-- ===== src/Server/Endpoint/Idle.antt =====
-- The count of the request handlers in progress, for `wait_idle`.
use robotframework_jsonrpcre.Base.{
  ℕ, suc, ◌-◌, false, List, String, ◌≡◌, refl, sym, ap, ◌∙◌, arith, ◌==◌, Bool-cases, inl, inr,
}
use robotframework_jsonrpcre.Server.Endpoint.{Endpoint, init, request_started, request_finished}

-- `n` handlers run: each has called `_request_started`, and calls `_request_finished` when it ends.
pub data Running (libraries : List String) (id : String) : ℕ → Endpoint → Type 0 where
  connected : Running libraries id 0 (init libraries id)
  starts :
      {n : ℕ} {e : Endpoint}
      → Running libraries id n e
      → Running libraries id (suc n) (request_started e)
  ends :
      {n : ℕ} {e : Endpoint}
      → Running libraries id (suc n) e
      → Running libraries id n (request_finished e)

never_zero : (n : ℕ) → (suc n == 0) ≡ false
never_zero n = ground arith

finished_lem :
    (n : ℕ) (e : Endpoint)
    → e.requests_in_progress ≡ suc n
    → e.idle ≡ false
    → ((request_finished e).requests_in_progress ≡ n) × ((request_finished e).idle ≡ (n == 0))
unfolding request_finished
finished_lem n e h i = elim (Bool-cases (e.requests_in_progress - 1 == 0)) [
  | inl t ↦ rw t (omega (arith, h), ground (arith, h))
  | inr f ↦ rw f (omega (arith, h), ground (arith, h, i))
]

-- However many handlers start and end, and in whatever order: the count is the number of handlers
-- that run, and the event that `wait_idle` waits for is set exactly while none runs.
pub Running-idle :
    (libraries : List String) (id : String) (n : ℕ) (e : Endpoint)
    → Running libraries id n e
    → (e.requests_in_progress ≡ n) × (e.idle ≡ (n == 0))
Running-idle libraries id n e connected = (refl, refl)
Running-idle libraries id n e (starts {n = k} {e = d} r) =
    let (h, i) = Running-idle libraries id k d r in (ap suc h, sym (never_zero k))
Running-idle libraries id n e (ends {n = k} {e = d} r) =
    let (h, i) = Running-idle libraries id (suc n) d r in finished_lem n d h (i ∙ never_zero n)
