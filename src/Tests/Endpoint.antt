-- ===== src/Tests/Endpoint.antt =====
-- The theorems on the endpoints of packages/jsonrpcpeer/src/jsonrpcpeer/peer.py at concrete inputs.
use mathlib.Core.List.{Memᴰ}
use robotframework_jsonrpcre.Base.{
  ℕ, Bool, true, false, not, Option, none, some, List, [], ◌∷◌, refl, ◌=ₛ◌, String, if◌then◌else◌,
}
use robotframework_jsonrpcre.Base.Dict.{Dict, lookup, put}
use robotframework_jsonrpcre.Peer.State.{init}
use robotframework_jsonrpcre.Peer.Register.{is_blank, handler_param_type, register_request_handler}
use robotframework_jsonrpcre.Peer.Endpoint.{
  Marks, Member, marks_of, Classes, Endpoint, members_named, rpc_members, attach_all,
  attach_endpoint, RemoteMember, RemoteMethod, sends, module_name, remote_method, remote_members,
  remote_class,
}
use robotframework_jsonrpcre.Peer.Endpoint.Attached.{ServesBoth}
use robotframework_jsonrpcre.Peer.Endpoint.Members.{NoneNearer, first_marked}
use robotframework_jsonrpcre.Peer.Endpoint.Remote.{attach_endpoint-Serves}
use robotframework_jsonrpcre.Tests.Peer.{env, counter, fresh}

abbrev sum_marks : Marks
sum_marks = record { request_method = some "sum"; notification_method = none }

-- A definition with the request "sum" at its method `add`, and a class that implements it.
data Name : Type 0 where
  definition implementation : Name

abbrev members_of : Name → String → Option Member
members_of definition name = if "add" =ₛ name then some (Member.function sum_marks) else none
members_of implementation name = if "add" =ₛ name then some Member.other else none

abbrev mro_of : Name → List Name
mro_of definition = definition ∷ []
mro_of implementation = implementation ∷ definition ∷ []

abbrev is_definition : Name → Bool
is_definition definition = true
is_definition implementation = false

abbrev issubclass : Name → Name → Bool
issubclass implementation c = true
issubclass definition c = is_definition c

abbrev is_same : Name → Name → Bool
is_same definition c = is_definition c
is_same implementation c = not (is_definition c)

abbrev classes : Classes Name ℕ
classes = record {
  dir = λ c. "add" ∷ [];
  mro = mro_of;
  own = members_of;
  issubclass = issubclass;
  is_same = is_same;
  is_endpoint = λ c. true;
  signature = λ c name. record {
    parameters = "self" ∷ "params" ∷ [];
    is_coroutine = true;
    result_type = none;
  };
}

abbrev endpoint : Endpoint Name ℕ ℕ
endpoint = record { class = implementation; attribute = λ name. counter }

abbrev add_method : RemoteMethod ℕ
add_method = record { marks = sum_marks; result_type = none; parameter = "params" }

abbrev remote_of_1 : Dict (RemoteMember ℕ)
remote_of_1 = ("__module__", module_name) ∷ ("add", sends add_method) ∷ []

-- Only the definition marks the name.
only_definition : NoneNearer classes "add" definition (mro_of implementation)
unfolding marks_of
only_definition definition h m s = refl
only_definition implementation h m s = absurd (cc)

attach_endpoint-Serves_example :
    ServesBoth env endpoint sum_marks "add" (attach_endpoint env classes endpoint fresh).1
unfolding attach_endpoint rpc_members members_named attach_all register_request_handler is_blank
    handler_param_type lookup put init remote_class remote_members remote_method first_marked
    marks_of
attach_endpoint-Serves_example =
    attach_endpoint-Serves env classes classes endpoint definition definition "add" add_method
      remote_of_1 fresh (attach_endpoint env classes endpoint fresh).1 refl refl refl refl refl refl
      only_definition (Memᴰ.tail (Memᴰ.head refl)) (Memᴰ.head refl)
