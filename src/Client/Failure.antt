-- ===== src/Client/Failure.antt =====
-- A failed keyword on its way from the server to Robot Framework: `_failure_mode` and
-- `_run_keyword_error` of _runner.py, `_keyword_failure` and `_response_failure` of
-- src/JsonRpcRemote/__init__.py.
use robotframework_jsonrpcre.Base.{
  Bool, true, false, Option, none, some, String, ◌≡◌, refl, if◌then◌else◌, ◌=ₛ◌, ◌∷◌, [], format,
}
use robotframework_jsonrpcre.Base.Result.{Exception}
use robotframework_jsonrpcre.Protocol.{
  RunKeywordError, RunKeywordErrorMode, continuable, fatal, skipped,
}

-- ExecutionFailed of Robot Framework, with the exception that it was raised from.
pub record ExecutionFailed : Type 0 where
  pub failure_message : String
  pub skip : Bool
  pub exit : Bool
  pub continue_on_failure : Bool
  pub original : Option Exception

unfoldable pub failure_mode : ExecutionFailed → Option RunKeywordErrorMode
failure_mode f =
    if f.skip
    then some skipped
    else if f.exit
    then some fatal
    else if f.continue_on_failure
    then some continuable
    else none

abbrev pub or_none : String → Option String
or_none s = if s =ₛ "" then none else some s

abbrev original_type : Option Exception → Option String
original_type none = none
original_type (some e) = some e.type_name

abbrev original_trace : Option Exception → Option String
original_trace none = none
original_trace (some e) = or_none e.trace

unfoldable pub run_keyword_error : ExecutionFailed → RunKeywordError
unfolding failure_mode
run_keyword_error f = record {
  error_message = f.failure_message;
  error_type = original_type f.original;
  error_traceback = original_trace f.original;
  mode = failure_mode f;
}

-- RemoteError, with the flags that Robot Framework reads.
pub record RemoteError : Type 0 where
  pub remote_message : String
  pub details : String
  pub is_fatal : Bool
  pub is_continuable : Bool
  pub is_skip : Bool

abbrev is_mode_fatal : Option RunKeywordErrorMode → Bool
is_mode_fatal (some fatal) = true
is_mode_fatal _ = false

abbrev is_mode_continuable : Option RunKeywordErrorMode → Bool
is_mode_continuable (some continuable) = true
is_mode_continuable _ = false

abbrev is_mode_skip : Option RunKeywordErrorMode → Bool
is_mode_skip (some skipped) = true
is_mode_skip _ = false

abbrev marked : String → Option String → String
marked mark none = ""
marked mark (some trace) = if trace =ₛ "" then "" else format (mark ∷ trace ∷ [])

-- The mark is _REMOTE_MARK.
unfoldable pub keyword_failure : String → RunKeywordError → RemoteError
keyword_failure mark e = record {
  remote_message = e.error_message;
  details = marked mark e.error_traceback;
  is_fatal = is_mode_fatal e.mode;
  is_continuable = is_mode_continuable e.mode;
  is_skip = is_mode_skip e.mode;
}

-- How Robot Framework takes a failure: it looks at skip first, then at exit, then at continue.
pub data Kind : Type 0 where
  skips : Kind
  ends : Kind
  goes_on : Kind
  plain : Kind

abbrev pub kind_of : (skip exit continue_on_failure : Bool) → Kind
kind_of true exit continue_on_failure = skips
kind_of false true continue_on_failure = ends
kind_of false false true = goes_on
kind_of false false false = plain

kind_lem :
    (message : String) (skip exit go_on : Bool) (original : Option Exception) (mark : String)
    → let r = keyword_failure mark (
        run_keyword_error (record {
          failure_message = message;
          skip = skip;
          exit = exit;
          continue_on_failure = go_on;
          original = original;
        })) in
      kind_of r.is_skip r.is_fatal r.is_continuable ≡ kind_of skip exit go_on
unfolding keyword_failure run_keyword_error
kind_lem message true exit go_on original mark = refl
kind_lem message false true go_on original mark = refl
kind_lem message false false true original mark = refl
kind_lem message false false false original mark = refl

-- Robot Framework takes the failure of a remote keyword the way it takes the failure on the server:
-- what the client raises from the error that the server reports has the same message and is a skip,
-- a fatal, a continuable or a plain failure as the one of the keyword is.
pub keyword_failure-run_keyword_error :
    (mark : String) (f : ExecutionFailed)
    → ((keyword_failure mark (run_keyword_error f)).remote_message ≡ f.failure_message)
      × (kind_of
            (keyword_failure mark (run_keyword_error f)).is_skip
            (keyword_failure mark (run_keyword_error f)).is_fatal
            (keyword_failure mark (run_keyword_error f)).is_continuable
          ≡ kind_of f.skip f.exit f.continue_on_failure)
unfolding keyword_failure run_keyword_error
keyword_failure-run_keyword_error mark f =
    (refl, kind_lem f.failure_message f.skip f.exit f.continue_on_failure f.original mark)
