-- ===== src/Server/Net/Tests.antt =====
-- A connection over a pipe that gives three bytes at a time and takes five.
use matrixdb.Prelude.{
  ℕ, ◌+◌, ◌≤◌, ◌≡◌, min, refl, sym, true, false, some, none, List, [], ◌∷◌, ◌++◌, length, take,
  drop, length-take, take-append-drop, append-nil, arith,
}
use matrixdb.Server.Wire.{Query, Request, Response, serialize_request}
use matrixdb.Server.Wire.RoundTrip.{AllWord}
use matrixdb.Server.Access.{AccessPolicy, authenticate, can_write}
use matrixdb.Server.Dispatch.{EngineApi, dispatch, authorized}
use matrixdb.Server.Net.{Socket, default_query, matrix_serve_conn_auth}
use matrixdb.Server.Net.Stream.{Stream, Live, At, frame}
use matrixdb.Server.Net.Session.{
  FewResults, frames, connection, known, unread, matrix_serve_conn_auth-connection,
}
use matrixdb.Server.Net.Client.{IsRequest, IsResponse, reply, Exchange, round_trip-Exchange}

-- what is still to come, and what has been sent
record Pipe : Type 0 where
  input : List ℕ
  output : List ℕ

abbrev pipe : Socket Pipe
pipe = record {
  recv = λ fd n.
      (take (min n 3) fd.input, record { input = drop (min n 3) fd.input; output = fd.output });
  send = λ fd b. (
    min (length b) 5,
    record { input = fd.input; output = fd.output ++ take (min (length b) 5) b },
  );
}

abbrev pipe_stream : Stream pipe
pipe_stream = record {
  incoming = λ fd. fd.input;
  outgoing = λ fd. fd.output;
  recv-length = λ fd n. omega (arith, length-take (min n 3) fd.input);
  recv-incoming = λ fd n. sym (take-append-drop (min n 3) fd.input);
  recv-outgoing = λ fd n. refl;
  send-length = λ fd b. omega arith;
  send-incoming = λ fd b. refl;
  send-outgoing = λ fd b. refl;
}

pipe_live : Live pipe pipe_stream
pipe_live = record {
  recv_some = λ fd n h k. omega (arith, h, k, length-take (min n 3) fd.input);
  send_some = λ fd b h. omega (arith, h);
}

-- an engine that is the number of its commits, and that has the value 70 under each key
abbrev counter : EngineApi ℕ
counter = record {
  kv_get = λ e key. some 70;
  begin = λ e. e;
  txn_put = λ e key value. e;
  commit = λ e. e + 1;
  execute_query = λ e q. (0, 5 ∷ [], e);
  health = λ e. [];
  stats = λ e. [];
}

counter_few : FewResults counter
counter_few = record {
  query_results = λ e q. omega arith;
  health_results = λ e. omega arith;
  stats_results = λ e. omega arith;
}

abbrev open_policy : AccessPolicy
open_policy = record { allow_all = true; cols = []; read = []; write = [] }

abbrev tokens : List (List ℕ × ℕ)
tokens = (1 ∷ 2 ∷ [], 9) ∷ []

abbrev put_request : Request
put_request = record { kind = 2; key = 7; value = 70; query = default_query }

abbrev requests : List (List ℕ)
requests = (3 ∷ []) ∷ serialize_request put_request ∷ []

abbrev caller : Pipe
caller = record { input = frame (1 ∷ 2 ∷ []) ++ frames requests; output = [] }

matrix_serve_conn_auth-connection_example :
    (fd' : Pipe) × (matrix_serve_conn_auth pipe counter open_policy tokens 3 0 caller
      ≡ some (
        known (authenticate tokens (1 ∷ 2 ∷ [])),
        fd',
        (connection counter open_policy (authenticate tokens (1 ∷ 2 ∷ [])) requests 0).1,
      ))
    × At pipe pipe_stream caller fd'
        (frames (connection counter open_policy (authenticate tokens (1 ∷ 2 ∷ [])) requests 0).0)
        (unread (authenticate tokens (1 ∷ 2 ∷ [])) requests)
unfolding serialize_request default_query matrixdb.Server.Wire.serialize_query
    matrixdb.Prelude.Bytes.to_bytes matrixdb.Server.Net.Session.AllShort
matrix_serve_conn_auth-connection_example =
    matrix_serve_conn_auth-connection pipe pipe_stream pipe_live counter counter_few open_policy
      tokens 3 0 caller (1 ∷ 2 ∷ []) requests (omega arith) (omega arith, (omega arith, tt))
      (omega arith) refl

put_request-IsRequest : IsRequest put_request
unfolding default_query
put_request-IsRequest = record {
  from = omega arith;
  to = omega arith;
  cmp = omega arith;
  key = omega arith;
  value = omega arith;
  query = record {
    value_col = omega arith;
    agg = omega arith;
    threshold = omega arith;
    cmp = omega arith;
    upper = omega arith;
    lo_i64 = omega arith;
    hi_i64 = omega arith;
    lo_f64 = omega arith;
    hi_f64 = omega arith;
    key_col = omega arith;
    num_groups = omega arith;
    limit = omega arith;
    filter_col = omega arith;
  };
}

put_reply-IsResponse : IsResponse (dispatch counter 0 put_request).0
unfolding dispatch AllWord matrixdb.Server.Wire.serialize_response matrixdb.Prelude.Bytes.to_bytes
    matrixdb.Server.Wire.words_bytes
put_reply-IsResponse = record { status = omega arith; few = omega arith; words = tt }

abbrev client_end : Pipe
client_end = record { input = frame (reply counter open_policy 9 0 put_request) ++ []; output = [] }

abbrev server_end : Pipe
server_end = record { input = frame (serialize_request put_request) ++ (4 ∷ []); output = [] }

round_trip-Exchange_example :
    Exchange counter open_policy 9 0 put_request pipe pipe pipe_stream pipe_stream pipe_live
      pipe_live client_end server_end []
      (4 ∷ [])
unfolding authorized can_write
round_trip-Exchange_example =
    round_trip-Exchange counter open_policy 9 0 put_request pipe pipe pipe_stream pipe_stream
      pipe_live pipe_live counter_few put_request-IsRequest refl put_reply-IsResponse client_end
      server_end [] (4 ∷ []) refl refl
