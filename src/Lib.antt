-- ===== src/Lib.antt =====
-- This library models robotframework-jsonrpcremote: a Robot Framework library that runs the keywords
-- of libraries on other machines. A client library (src/JsonRpcRemote/__init__.py) connects to a server
-- (packages/server/src/robot_jsonrpcremote_server), which imports the libraries and runs their keywords in
-- a Robot Framework run of its own. Both ends of a connection are a JSON-RPC 2.0 peer
-- (packages/jsonrpcpeer/src/jsonrpcpeer), and the messages on it are those of
-- packages/protocol/src/robot_jsonrpcremote_protocol/__init__.py.
--
-- Base: shared names, Boolean tests, lists, dictionaries, decimal numbers, texts and results.
-- Value: the values of JSON; a value that is none of them is `other`, a float is its bit pattern.
--
-- The peer, packages/jsonrpcpeer/src/jsonrpcpeer/peer.py:
-- - Peer.Message: the messages, their error objects, and the objects that they are written as.
-- - Peer.State: JsonRpcPeer as a record (`Peer`), what it takes from outside (`Runtime`: json, the codec, the
--   conversion of params, the printing of values), `_report_problem`. A handler is a function on the
--   state of the application; it runs in one step and does not use the peer, which the source
--   passes to handlers that ask for it, so what a handler such as the server's exit does to its peer is left out.
-- - Peer.Register: register_request_handler and register_notification_handler.
-- - Peer.Dispatch: process_single_message, process_request and process_notification; Peer.Responses:
--   `_handle_response`; Peer.Send: the encoding and writing of messages; Peer.Handle: handle_message and
--   `_handle_batch`.
-- - Peer.Requests: send_notification and send_request_typed, the latter up to its wait (begin_request)
--   and after it (finish_request); Peer.Lifecycle: io_loop's end, `_finish`, `_mark_closed`, stop.
-- - Peer.Session: these as a step relation with the calls that wait, in any order, and a call from one peer to
--   another; Peer.Tasks: over it, the read
--   task, the tasks in flight and the calls of stop, with `_start_task` and `_cancel_inflight`.
-- - Peer.Endpoint: attach_endpoint, remote, `_rpc_members` and `_remote_class`, on what Python tells of classes.
-- - Peer.Stream: asyncio.StreamReader over the bytes in its buffer and the chunks to come; Peer.Reader:
--   `_read_header_line`, `_read_header_part`, `_skip_content`, `_read_message`.
--
-- JSON conversion, packages/jsonrpcpeer/src/jsonrpcpeer/json_helpers.py:
-- - Jsonable: value_to_jsonable and jsonable_to_value, with pickle as a parameter.
-- - Json.Case: to_snake_case and to_camel_case, on the codes of ASCII texts.
-- - Json.Types: the type hints that from_dict reads and the objects that it makes; classes, the equality of Python,
--   float() and the texts of errors are the record `Python`.
-- - Json.Handlers, Json.Classes, Json.FromDict: from_dict with its handlers and the class that an object fills.
--   from_dict recurs on the value and, at one value, on the types, so a handler takes the conversions
--   of the elements. A class is a dataclass without __post_init__, whose fields are its parameters.
-- - Json.AsJson: as_json, as the JSON value that is written; Json.AsDict: as_dict. Json.Validate: validate_types and
--   ValidateMixin.
-- - Json.Fits: what it is for an object to be of a type; Json.Sound: from_dict gives such objects.
--
-- Protocol: the data classes, enumerations and methods of the protocol package.
--
-- The server:
-- - Server.Runner: RobotRemoteContext of _runner.py, with its queue, its futures and the hook loop. A command
--   is a function on the state of Robot Framework; Server.Runner.Steps has the interleavings of the
--   threads, each step being what runs under the lock or on one thread.
-- - Server.Keyword: `_robot_run_keyword`, `_robot_import_library`, with Robot Framework as the record `Robot`.
-- - Server.Library: `_as_robot_data`, `_robot_import_library`'s definition, the choice of a keyword.
-- - Server.Process: __main__.py, the main thread and the thread of the server with their events, stop hook and
--   clients, as a step relation (Server.Process.Steps), and the addresses to bind.
-- - Server.Endpoint: RobotServerEndpoint of _endpoint.py; Server.Endpoint.Tokens has the life of its
--   library tokens as a step relation with the keyword store.
--
-- The client, src/JsonRpcRemote/__init__.py:
-- - Client.LogSink: `_LogSink`, with the calls that its event loop has queued and its turns. Client.Failure: the failure of a keyword, from `_run_keyword_error` of the
--   server to `_keyword_failure`. Client.Retry: the stored session, connect retry, the check of the
--   definition after a reconnect, the scopes; Client.Changes: `_definition_changes`. Client.Keywords: the keyword
--   definitions.
-- - Client.Session: `_Session` with its worker, the threads that submit calls, and stop, as a step relation
--   (Client.Session.Steps): a step is what runs between two waits, or under the lock; `submit` is two,
--   as the worker can close its loop between them.
-- - Client.Connect: the options, the transport of a URI, `_connect` and `_run_on_loop`; Client.Log: the messages that
--   the server and the peer have for the log.
-- - Client.Call: a keyword call, `run_keyword` of JsonRpcRemote and of `_Session`, with the log level, the answers and
--   the errors, and graceful_shutdown.
--
-- Tests: the theorems at concrete inputs.
--
-- Fuel: `read_line` and `read_lines` take one more than the bytes that are left, as a round that goes on
-- takes a byte at least; `skip` takes the number of bytes to skip, for the same reason. All other loops are
-- structural. Numbers are unbounded, as Python's are.
--
-- Not modelled: logging; stdio.py; named tuples, sets and dataclasses with a constructor of their own in
-- json_helpers.py; the binding of a call's arguments on a remote object; the command line, the sockets and the
-- signal handler of the server process, and its Robot Framework run; the wait of wait_idle; urlparse, shlex and
-- what Robot Framework does, which are parameters.
-- The clock is not modelled: a timeout is a step that may come at any time, and for connect retry each
-- attempt says whether time remains.
pub mod Base
pub mod Client
pub mod Json
pub mod Jsonable
pub mod Peer
pub mod Protocol
pub mod Server
pub mod Tests
pub mod Value
