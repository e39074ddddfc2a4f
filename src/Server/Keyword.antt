-- ===== src/Server/Keyword.antt =====
-- What the commands of the clients do in Robot Framework: `_robot_import_library` up to its definition,
-- `_robot_run_keyword` and `_robot_set_log_level` of
-- packages/server/src/robot_jsonrpcremote_server/_runner.py. Robot Framework is the record `Robot` on a state of its own.
pub mod Returned
use robotframework_jsonrpcre.Base.{
  Bool, true, false, Option, none, some, List, [], ◌∷◌, ◌++◌, map, String, format, if◌then◌else◌,
}
use robotframework_jsonrpcre.Base.Result.{Result, ok, err, ◌>>=◌, Exception}
use robotframework_jsonrpcre.Value.{Value, text, Fields, fields}
use robotframework_jsonrpcre.Jsonable.{Pickle, value_to_jsonable, jsonable_to_value}
use robotframework_jsonrpcre.Client.Failure.{ExecutionFailed, run_keyword_error}
use robotframework_jsonrpcre.Server.Endpoint.{
  ResponseError, RunFailure, keyword_failed, other_failure,
}
use robotframework_jsonrpcre.Server.Library.{
  LibraryKeyword, TestLibrary, as_robot_data, choose_keyword,
}

-- LibraryKeywordRunner(kw), or kw.create_runner(name).
pub data KeywordRunner : Type 0 where
  library_runner : LibraryKeyword → KeywordRunner
  created_runner : LibraryKeyword → (name : String) → KeywordRunner

-- How a runner ends.
pub data Ended : Type 0 where
  gives : Value → Ended
  fails : ExecutionFailed → Ended
  breaks : Exception → Ended

-- Robot Framework: EXECUTION_CONTEXTS.current, the keyword store of its namespace, the import of a library,
-- a run of a keyword, the log level, `escape` and `str`; and the exceptions of this module.
pub record Robot (S : Type 0) : Type 0 where
  pub has_context : S → Bool
  pub get_library : S → String → Result Exception TestLibrary
  pub find_keywords : TestLibrary → String → List LibraryKeyword
  pub run : KeywordRunner → List Value → List (Value × Value) → S → Ended × S
  pub import_library : (name : Value) → List Value → (token : Value) → S → Option Exception × S
  pub set_log_level : String → S → Option Exception × S
  pub escape : Value → Value
  pub str : Value → String
  pub show : Value → String
  pub no_context : String → Exception
  pub raises : ResponseError → Exception

abbrev pub runner_of : String → LibraryKeyword → KeywordRunner
runner_of name kw = if kw.embedded then library_runner kw else created_runner kw name

module _ {S : Type 0} (robot : Robot S) (pickle : Pickle) where
  -- The positional arguments as data for Robot.
  unfoldable pub robot_args : List Value → Result Exception (List Value)
  robot_args [] = ok []
  robot_args (v ∷ vs) = do
    value ← jsonable_to_value pickle v
    rest ← robot_args vs
    ok (as_robot_data robot.escape value ∷ rest)

  -- The named arguments; `escape` keeps different names different.
  unfoldable pub robot_named : List (String × Value) → Result Exception (List (Value × Value))
  robot_named [] = ok []
  robot_named ((k, v) ∷ named) = do
    key ← jsonable_to_value pickle (text k)
    value ← jsonable_to_value pickle v
    rest ← robot_named named
    ok ((as_robot_data robot.escape key, as_robot_data robot.escape value) ∷ rest)

  -- The result of the run, or KeywordFailedError.
  abbrev pub run_outcome : Ended → Result RunFailure Value
  run_outcome (gives r) = ok (value_to_jsonable pickle r)
  run_outcome (fails f) = err (keyword_failed (run_keyword_error f))
  run_outcome (breaks x) = err (other_failure x)

  abbrev pub other : {A : Type 0} → Result Exception A → Result RunFailure A
  other (ok a) = ok a
  other (err x) = err (other_failure x)

  abbrev chosen : Result ResponseError LibraryKeyword → Result RunFailure LibraryKeyword
  chosen (ok kw) = ok kw
  chosen (err e) = err (other_failure (robot.raises e))

  -- The keyword with its arguments, or what is raised before it runs.
  unfoldable pub prepare_run :
      String
      → String
      → List Value
      → Fields
      → S
      → Result RunFailure (KeywordRunner × List Value × List (Value × Value))
  unfolding robot_args robot_named
  prepare_run token name args kwargs s = do
    lib ← other (robot.get_library s token)
    kw ← chosen (choose_keyword name lib.real_name (robot.find_keywords lib name))
    positional ← other (robot_args args)
    named ← other (robot_named (fields kwargs))
    ok (runner_of name kw, positional, named)

  abbrev run_prepared :
      S
      → Result RunFailure (KeywordRunner × List Value × List (Value × Value))
      → Result RunFailure Value × S
  run_prepared s (err e) = (err e, s)
  run_prepared s (ok (runner, positional, named)) =
      let (ended, t) = robot.run runner positional named s in (run_outcome ended, t)

  -- `_robot_run_keyword`
  unfoldable pub robot_run_keyword :
      String → String → List Value → Fields → S → Result RunFailure Value × S
  unfolding prepare_run
  robot_run_keyword token name args kwargs s =
      if robot.has_context s
      then run_prepared s (prepare_run token name args kwargs s)
      else (err (other_failure (robot.no_context "running keyword")), s)

module _ {S : Type 0} (robot : Robot S) where
  abbrev named_entry : String × Value → Value
  named_entry (key, value) = text (
      format (
        robot.show (as_robot_data robot.escape (text key))
        ∷ "="
        ∷ robot.show (as_robot_data robot.escape (text (robot.str value)))
        ∷ []))

  -- The arguments of an import: named values become "name=value" entries.
  unfoldable pub import_args : List Value → Fields → List Value
  import_args args kw_args =
      map (as_robot_data robot.escape) args ++ map named_entry (fields kw_args)

  -- `_robot_import_library`, up to the definition of the library.
  unfoldable pub robot_import_library :
      (token name : Value) → List Value → Fields → S → Option Exception × S
  unfolding import_args
  robot_import_library token name args kw_args s =
      if robot.has_context s
      then robot.import_library (as_robot_data robot.escape name) (import_args args kw_args)
          (as_robot_data robot.escape token) s
      else (some (robot.no_context "importing library"), s)

  -- `_robot_set_log_level`
  unfoldable pub robot_set_log_level : String → S → Option Exception × S
  robot_set_log_level level s =
      if robot.has_context s
      then robot.set_log_level level s
      else (some (robot.no_context "setting the log level"), s)
