-- ===== src/Protocol.antt =====
-- The messages between client and server: packages/protocol/src/robot_jsonrpcremote_protocol/__init__.py.
-- A dataclass is a record with its fields; a field that may be None is an Option. AnyType is Value.
pub mod Kinds
use robotframework_jsonrpcre.Base.{ℕ, Bool, Option, none, some, List, [], ◌∷◌, String}
use robotframework_jsonrpcre.Base.Int.{ℤ, negsuc}
use robotframework_jsonrpcre.Value.{Value, Fields}

pub data RobotJsonRpcErrorCode : Type 0 where
  not_initialized : RobotJsonRpcErrorCode
  keyword_not_found : RobotJsonRpcErrorCode

abbrev pub robot_code_value : RobotJsonRpcErrorCode → ℤ
robot_code_value not_initialized = negsuc 31999
robot_code_value keyword_not_found = negsuc 32000

pub data ArgumentKind : Type 0 where
  positional_only : ArgumentKind
  positional_or_named : ArgumentKind
  positional_only_marker : ArgumentKind
  named_only_marker : ArgumentKind
  var_positional : ArgumentKind
  named_only : ArgumentKind
  var_named : ArgumentKind

pub data RunKeywordErrorMode : Type 0 where
  continuable : RunKeywordErrorMode
  fatal : RunKeywordErrorMode
  skipped : RunKeywordErrorMode

pub data LogLevel : Type 0 where
  trace : LogLevel
  debug : LogLevel
  info : LogLevel
  warn : LogLevel
  error : LogLevel
  console : LogLevel
  html : LogLevel

pub record ClientInfo : Type 0 where
  pub client_name : String
  pub client_version : String

pub record ClientCapabilities : Type 0 where
  pub supports_log : Option Bool
  pub supports_trace : Option Bool

pub record InitializeParams : Type 0 where
  pub client_capabilities : Option ClientCapabilities
  pub client_info : Option ClientInfo
  pub initialization_options : Option Value
  pub trace_value : Option String
  pub initial_log_level : Option String

pub record InitializedParams : Type 0 where

pub record SetLogLevelParams : Type 0 where
  pub log_level : String

pub record ServerInfo : Type 0 where
  pub server_name : String
  pub server_version : String

pub record ArgumentDefinition : Type 0 where
  pub argument_name : String
  pub argument_type : Option String
  pub has_default : Option Bool
  pub default_value : Option Value
  pub is_required : Bool
  pub kind : Option ArgumentKind
  pub argument_doc : Option String

pub record KeywordDefinition : Type 0 where
  pub keyword_name : String
  pub keyword_args : List ArgumentDefinition
  pub keyword_doc : Option String
  pub tags : Option (List String)
  pub keyword_source : Option String
  pub keyword_lineno : Option ℕ

pub record LibraryDefinition : Type 0 where
  pub library_name : String
  pub keywords : List KeywordDefinition
  pub doc : Option String
  pub doc_format : Option String
  pub scope : Option String
  pub version : Option String
  pub source : Option String
  pub lineno : Option ℕ

pub record ServerCapabilities : Type 0 where
  pub support_exit : Option Bool
  pub libraries : Option (List String)

pub record InitializeResult : Type 0 where
  pub server_capabilities : Option ServerCapabilities
  pub server_info : Option ServerInfo

pub record ImportLibraryParams : Type 0 where
  pub import_name : String
  pub import_args : Option (List Value)
  pub import_kw_args : Option Fields

pub record ImportLibraryResult : Type 0 where
  pub import_token : String
  pub definition : LibraryDefinition

pub record FinalizeLibraryParams : Type 0 where
  pub finalize_token : String

pub record FinalizeLibraryResult : Type 0 where

pub record ShutdownParams : Type 0 where

pub record ShutdownResult : Type 0 where

pub record ExitParams : Type 0 where

pub record RunKeywordParams : Type 0 where
  pub library_token : String
  pub run_name : String
  pub run_args : Option (List Value)
  pub run_kwargs : Option Fields

pub record RunKeywordError : Type 0 where
  pub error_message : String
  pub error_type : Option String
  pub error_traceback : Option String
  pub mode : Option RunKeywordErrorMode

pub record RunKeywordResult : Type 0 where
  pub run_result : Option Value
  pub run_error : Option RunKeywordError

pub record LogParams : Type 0 where
  pub log_text : String
  pub level : Option LogLevel
  pub is_html : Option Bool
  pub is_console : Option Bool
  pub timestamp : Option String

abbrev pub initialize_request : String
initialize_request = "robot/initialize"

abbrev pub initialized_notification : String
initialized_notification = "robot/initialized"

abbrev pub import_library_request : String
import_library_request = "robot/import_library"

abbrev pub finalize_library_request : String
finalize_library_request = "robot/finalize_library"

abbrev pub run_keyword_request : String
run_keyword_request = "robot/run_keyword"

abbrev pub shutdown_request : String
shutdown_request = "robot/shutdown"

abbrev pub exit_notification : String
exit_notification = "robot/exit"

abbrev pub log_notification : String
log_notification = "robot/log"

abbrev pub set_log_level_notification : String
set_log_level_notification = "robot/set_log_level"

abbrev pub trace_notification : String
trace_notification = "robot/trace"

-- ServerEndpoint: the method of each member, and whether it is a request.
pub data ServerMember : Type 0 where
  initialize_member : ServerMember
  initialized_member : ServerMember
  set_log_level_member : ServerMember
  import_library_member : ServerMember
  run_keyword_member : ServerMember
  finalize_library_member : ServerMember
  shutdown_member : ServerMember
  exit_member : ServerMember

abbrev pub server_method : ServerMember → String
server_method initialize_member = initialize_request
server_method initialized_member = initialized_notification
server_method set_log_level_member = set_log_level_notification
server_method import_library_member = import_library_request
server_method run_keyword_member = run_keyword_request
server_method finalize_library_member = finalize_library_request
server_method shutdown_member = shutdown_request
server_method exit_member = exit_notification

-- ClientEndpoint.
pub data ClientMember : Type 0 where
  log_member : ClientMember

abbrev pub client_method : ClientMember → String
client_method log_member = log_notification
