-- ===== src/Server/Endpoint/Guards.antt =====
-- Which imports `import_library` lets through to the runner.
use robotframework_jsonrpcre.Base.{suc, true, String, ◌≡◌, refl, inl, inr, arith, Bool-cases}
use robotframework_jsonrpcre.Base.Result.{Result, ok, err}
use robotframework_jsonrpcre.Protocol.{ImportLibraryParams}
use robotframework_jsonrpcre.Server.Endpoint.{
  ResponseError, Endpoint, is_ready, requested, is_available, next_token, Import, started,
  start_import, start_requested, begin_import,
}

-- What an import that is let through has passed, and what it leaves behind.
abbrev pub Passed : ImportLibraryParams → Endpoint → Import × Endpoint → Type 0
Passed params e r =
    (is_ready e ≡ true)
    × (requested params.import_name e.server_libraries ≡ ok r.0.library)
    × (is_available r.0.library e.server_libraries ≡ true)
    × (r.0.token ≡ next_token r.0.library e)
    × (r.1 ≡ record e { next_token_id = suc e.next_token_id })

start_import-Passed :
    (name : String) (params : ImportLibraryParams) (e : Endpoint) (r : Import × Endpoint)
    → is_ready e ≡ true
    → requested params.import_name e.server_libraries ≡ ok name
    → start_import name params e ≡ ok r
    → Passed params e r
start_import-Passed name params e r t q h =
    elim (Bool-cases (is_available name e.server_libraries)) [
      | inl a ↦
          (let k : started name params e ≡ r = cc (rw a at h) in rw (← k) (t, q, a, refl, refl))
      | inr f ↦ absurd (ground arith)
    ]

start_requested-Passed :
    (q : Result ResponseError String) (params : ImportLibraryParams) (e : Endpoint)
    (r : Import × Endpoint)
    → is_ready e ≡ true
    → requested params.import_name e.server_libraries ≡ q
    → start_requested q params e ≡ ok r
    → Passed params e r
start_requested-Passed (err x) params e r t q h = absurd (cc)
start_requested-Passed (ok name) params e r t q h = start_import-Passed name params e r t q h

-- `import_library` submits an import to the runner only after `initialize` and `initialized`, of the
-- library that is asked for, or of the first one of the server if the name is empty, and only if the
-- server names no libraries or names this one; the token has the next number, and nothing but this
-- number of the endpoint changes.
pub begin_import-Passed :
    (params : ImportLibraryParams) (e : Endpoint) (r : Import × Endpoint)
    → begin_import params e ≡ ok r
    → Passed params e r
unfolding begin_import
begin_import-Passed params e r h = elim (Bool-cases (is_ready e)) [
  | inl t ↦ start_requested-Passed _ params e r t refl (rw t at h)
  | inr f ↦ absurd (ground arith)
]
