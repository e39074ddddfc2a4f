-- ===== src/Server/Keyword/Returned.antt =====
-- A keyword call from the client's values to Robot Framework on the server, and back.
use robotframework_jsonrpcre.Base.{
  Bool, true, Option, none, some, List, [], ◌∷◌, All, map, String, ◌≡◌, refl, ap,
}
use robotframework_jsonrpcre.Base.Result.{Result, ok, err, Exception}
use robotframework_jsonrpcre.Value.{Value, text, Fields, end, field, fields}
use robotframework_jsonrpcre.Jsonable.{
  Pickle, Restores, value_to_jsonable, jsonable_to_value, jsonable_to_value-value_to_jsonable,
}
use robotframework_jsonrpcre.Client.Failure.{ExecutionFailed, run_keyword_error, keyword_failure}
use robotframework_jsonrpcre.Protocol.{RunKeywordResult}
use robotframework_jsonrpcre.Client.Call as Call
use robotframework_jsonrpcre.Client.Call.{Answer, Raised, remote, finish_run}
use robotframework_jsonrpcre.Server.Endpoint.{end_run}
use robotframework_jsonrpcre.Server.Library.{
  LibraryKeyword, TestLibrary, as_robot_data, choose_keyword,
}
use robotframework_jsonrpcre.Server.Keyword.{
  Ended, gives, fails, Robot, runner_of, robot_args, robot_named, prepare_run, robot_run_keyword,
}

-- The dict of the named arguments.
abbrev pub fields_of : List (String × Value) → Fields
fields_of [] = end
fields_of ((k, v) ∷ named) = field k v (fields_of named)

abbrev pub sent_named : Pickle → List (String × Value) → List (String × Value)
sent_named pickle [] = []
sent_named pickle ((k, v) ∷ named) = (k, value_to_jsonable pickle v) ∷ sent_named pickle named

fields-fields_of : (named : List (String × Value)) → fields (fields_of named) ≡ named
fields-fields_of [] = refl
fields-fields_of ((k, v) ∷ named) =
    ap (λ (rest : List (String × Value)). (k, v) ∷ rest) (fields-fields_of named)

abbrev pub as_data_named : (Value → Value) → List (String × Value) → List (Value × Value)
as_data_named escape [] = []
as_data_named escape ((k, v) ∷ named) =
    (as_robot_data escape (text k), as_robot_data escape v) ∷ as_data_named escape named

-- How a keyword ended: it gave a value, or failed.
abbrev pub ended_by : Result ExecutionFailed Value → Ended
ended_by (ok v) = gives v
ended_by (err f) = fails f

-- pickle gives the value back that the keyword gave.
abbrev pub RestoresResult : Pickle → Result ExecutionFailed Value → Type 0
RestoresResult pickle (ok v) = Restores pickle v
RestoresResult pickle (err f) = Unit

-- What the caller gets of it.
abbrev pub received : (mark : String) → Result ExecutionFailed Value → Result Raised Value
received mark (ok v) = ok v
received mark (err f) = err (remote (keyword_failure mark (run_keyword_error f)))

-- What the client makes of an answer of the server that is no error response.
abbrev pub answered :
    Pickle
    → (mark : String) → (is_connection : Exception → Bool) → Option Exception
    → Result Exception RunKeywordResult
    → Option (Result Raised Value)
answered pickle mark is_connection lost (ok r) =
    some (finish_run pickle mark is_connection lost (Call.result r))
answered pickle mark is_connection lost (err x) = none

module _ {S : Type 0} (robot : Robot S) (pickle : Pickle) where
  robot_args-sent :
      (vs : List Value)
      → All (Restores pickle) vs
      → robot_args robot pickle (map (value_to_jsonable pickle) vs)
        ≡ ok (map (as_robot_data robot.escape) vs)
  unfolding robot_args
  robot_args-sent [] h = refl
  robot_args-sent (v ∷ vs) (h, hs) =
      rw (jsonable_to_value-value_to_jsonable pickle v h, robot_args-sent vs hs) refl

  text_as_it_is : (s : String) → jsonable_to_value pickle (text s) ≡ ok (text s)
  unfolding jsonable_to_value
  text_as_it_is s = refl

  robot_named-sent :
      (named : List (String × Value))
      → All (λ (p : String × Value). Restores pickle p.1) named
      → robot_named robot pickle (sent_named pickle named) ≡ ok (as_data_named robot.escape named)
  unfolding robot_named
  robot_named-sent [] h = refl
  robot_named-sent ((k, v) ∷ named) (h, hs) =
      rw
        (text_as_it_is k, jsonable_to_value-value_to_jsonable pickle v h, robot_named-sent named hs)
        refl

  prepared :
      (token name : String) (lib : TestLibrary) (kw : LibraryKeyword) (vs : List Value)
      (named : List (String × Value)) (s : S)
      → All (Restores pickle) vs
      → All (λ (p : String × Value). Restores pickle p.1) named
      → robot.get_library s token ≡ ok lib
      → choose_keyword name lib.real_name (robot.find_keywords lib name) ≡ ok kw
      → prepare_run robot pickle token name
          (map (value_to_jsonable pickle) vs)
          (fields_of (sent_named pickle named))
          s
        ≡ ok (
          runner_of name kw,
          map (as_robot_data robot.escape) vs,
          as_data_named robot.escape named,
        )
  unfolding prepare_run
  prepared token name lib kw vs named s h hn l c =
      rw
        (
          l,
          c,
          robot_args-sent vs h,
          fields-fields_of (sent_named pickle named),
          robot_named-sent named hn,
        )
        refl

  finish_run-value :
      (mark : String) (is_connection : Exception → Bool) (lost : Option Exception) (v : Value)
      → Restores pickle v
      → finish_run pickle mark is_connection lost (
          Call.result (record { run_result = some (value_to_jsonable pickle v); run_error = none }))
        ≡ ok v
  unfolding finish_run jsonable_to_value
  finish_run-value mark is_connection lost v h =
      let back : jsonable_to_value pickle (value_to_jsonable pickle v) ≡ ok v =
        jsonable_to_value-value_to_jsonable pickle v h in
      rw back refl

  -- The call of a keyword that the server finds, from the client's values to what its caller gets: in the
  -- execution context, Robot Framework runs the chosen keyword once, on the values that the client was given,
  -- marked as data for Robot. The client gives the value that this gives, or raises the failure that this
  -- fails with, where pickle gives back the values of the call.
  pub robot_run_keyword-returned :
      (mark : String) (is_connection : Exception → Bool) (lost : Option Exception)
      (token name : String) (lib : TestLibrary) (kw : LibraryKeyword) (vs : List Value)
      (named : List (String × Value)) (s t : S) (outcome : Result ExecutionFailed Value)
      → All (Restores pickle) vs
      → All (λ (p : String × Value). Restores pickle p.1) named
      → RestoresResult pickle outcome
      → robot.has_context s ≡ true
      → robot.get_library s token ≡ ok lib
      → choose_keyword name lib.real_name (robot.find_keywords lib name) ≡ ok kw
      → robot.run
          (runner_of name kw)
          (map (as_robot_data robot.escape) vs)
          (as_data_named robot.escape named)
          s
        ≡ (ended_by outcome, t)
      → let served =
          robot_run_keyword robot pickle token name
            (map (value_to_jsonable pickle) vs)
            (fields_of (sent_named pickle named))
            s in
        (answered pickle mark is_connection lost (end_run served.0) ≡ some (received mark outcome))
        × (served.1 ≡ t)
  unfolding robot_run_keyword end_run finish_run
  robot_run_keyword-returned mark is_connection lost token name lib kw vs named s t (ok v) h hn ho x
        l c r =
      let ready = prepared token name lib kw vs named s h hn l c in
      rw (x, ready, r) (ap some (finish_run-value mark is_connection lost v ho), refl)
  robot_run_keyword-returned mark is_connection lost token name lib kw vs named s t (err f) h hn ho
        x l c r =
      let ready = prepared token name lib kw vs named s h hn l c in rw (x, ready, r) (refl, refl)
