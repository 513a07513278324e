-- ===== src/Server/Net.antt =====
-- The transport of server_tcp.hpp and the client of client.hpp: messages behind their length, over sockets
-- that may take and give any part of what is asked. The socket calls are a parameter. The loops `recv_all` and
-- `send_all` have as many rounds as there are bytes; each round moves one at least.
pub mod Stream
pub mod Session
pub mod Client
mod Tests
use matrixdb.Prelude.{
  ℕ, zero, suc, ◌+◌, ◌-◌, ◌*◌, ◌%◌, ◌^◌, Bool, true, false, not, ◌&&◌, ◌||◌, Option, none, some,
  List, [], ◌∷◌, ◌++◌, length, take, drop, get_or, ltb, leb, ◌==◌, if◌then◌else◌,
}
use matrixdb.Prelude.Bytes.{to_bytes, of_bytes}
use matrixdb.Prelude.Maps.{◌>>=◌}
use matrixdb.Server.Wire.{Query, Request, Response, serialize_request, deserialize_response}
use matrixdb.Server.Access.{AccessPolicy, authenticate}
use matrixdb.Server.Dispatch.{EngineApi, matrix_serve}
use matrixdb.Server.Concurrent.{serve_concurrent}

-- `recv` of at most so many bytes gives the bytes, none at the end of the stream or on an error; `send` gives how many of
-- the bytes it took, 0 on an error.
pub record Socket (S : Type 0) : Type 0 where
  pub recv : S → ℕ → List ℕ × S
  pub send : S → List ℕ → ℕ × S

-- the cap on the length of a message
abbrev pub max_message : ℕ
max_message = 2 ^ 28

-- `MatrixQuery{}`; all its words are 0.
unfoldable pub default_query : Query
default_query = record {
  value_col = 0;
  agg = 0;
  has_filter = false;
  threshold = 0;
  cmp = 0;
  upper = 0;
  lo_i64 = 0;
  hi_i64 = 0;
  lo_f64 = 0;
  hi_f64 = 0;
  grouped = false;
  key_col = 0;
  num_groups = 0;
  limit = 0;
  filter_col = 0;
}

abbrev pub first_of : List ℕ → Option ℕ
first_of [] = none
first_of (x ∷ xs) = some x

pub record HealthStatus : Type 0 where
  pub ready : Bool
  pub durable : Bool
  pub catalog_columns : ℕ
  pub host_resident_bytes : ℕ
  pub wal_records_pending : ℕ
  pub dropped_writes : ℕ

-- of the six words of a health response
unfoldable pub health_of : List ℕ → HealthStatus
health_of f = record {
  ready = not (get_or f 0 0 == 0);
  durable = not (get_or f 1 0 == 0);
  catalog_columns = get_or f 2 0;
  host_resident_bytes = get_or f 3 0;
  wal_records_pending = get_or f 4 0;
  dropped_writes = get_or f 5 0;
}

module _ {S : Type 0} (sock : Socket S) where
  unfoldable pub recv_loop : ℕ → ℕ → S → Option (List ℕ) × S
  recv_loop zero fuel fd = (some [], fd)
  recv_loop (suc left) zero fd = (none, fd)
  recv_loop (suc left) (suc fuel) fd =
      let (b, fd) = sock.recv fd (suc left) in
      let rest = recv_loop (suc left - length b) fuel fd in
      if length b == 0 then (none, fd) else (rest.0 >>= (λ bs. some (b ++ bs)), rest.1)

  unfoldable pub recv_all : ℕ → S → Option (List ℕ) × S
  recv_all n fd = recv_loop n n fd

  unfoldable pub send_loop : List ℕ → ℕ → S → Bool × S
  send_loop [] fuel fd = (true, fd)
  send_loop (x ∷ xs) zero fd = (false, fd)
  send_loop (x ∷ xs) (suc fuel) fd =
      let (w, fd) = sock.send fd (x ∷ xs) in
      let rest = send_loop (drop w (x ∷ xs)) fuel fd in if w == 0 then (false, fd) else rest

  unfoldable pub send_all : List ℕ → S → Bool × S
  send_all b fd = send_loop b (length b) fd

  -- a length, and then the bytes if there are any
  unfoldable pub send_frame : List ℕ → S → Bool × S
  send_frame b fd =
      let len = length b % 2 ^ 32 in
      let (sent, fd) = send_all (to_bytes 4 len) fd in
      if not sent then (false, fd) else if len == 0 then (true, fd) else send_all (take len b) fd

  unfoldable pub recv_frame : ℕ → S → Option (List ℕ) × S
  recv_frame limit fd =
      let (head, fd) = recv_all 4 fd in
      elim head [
        | none ↦ (none, fd)
        | some b ↦
            if ltb limit (of_bytes b)
            then (none, fd)
            else if of_bytes b == 0
            then (some [], fd)
            else recv_all (of_bytes b) fd
      ]

  -- One request on a connection, through whatever answers it; `false` ends the connection.
  unfoldable pub serve_framed : {E : Type 0} → (E → List ℕ → List ℕ × E) → E → S → Bool × S × E
  serve_framed handle eng fd =
      let (req, fd) = recv_frame max_message fd in
      elim req [
        | none ↦ (false, fd, eng)
        | some bytes ↦
            let (resp, eng) = handle eng bytes in
            let (sent, fd) = send_frame resp fd in (sent, fd, eng)
      ]

  -- the loop of a connection, on fuel; `none` is where the fuel ends
  unfoldable pub serve_until_closed :
      {E : Type 0} → (E → List ℕ → List ℕ × E) → ℕ → E → S → Option (S × E)
  serve_until_closed handle zero eng fd = none
  serve_until_closed handle (suc fuel) eng fd =
      let (going, fd, eng) = serve_framed handle eng fd in
      let rest = serve_until_closed handle fuel eng fd in if going then rest else some (fd, eng)

  unfoldable pub authenticate_conn : List (List ℕ × ℕ) → S → Option ℕ × S
  authenticate_conn auth fd =
      let (token, fd) = recv_frame 4096 fd in (token >>= authenticate auth, fd)

  module _ {E : Type 0} (api : EngineApi E) (policy : AccessPolicy) where
    unfoldable pub matrix_serve_conn : ℕ → E → S → Bool × S × E
    matrix_serve_conn principal eng fd =
        serve_framed (λ e req. matrix_serve api e policy principal req) eng fd

    unfoldable pub matrix_serve_conn_concurrent :
        (E → Query → Option (List ℕ)) → ℕ → E → S → Bool × S × E
    matrix_serve_conn_concurrent shared principal eng fd =
        serve_framed (λ e req. (serve_concurrent api shared e policy principal req).1) eng fd

    -- The first result says whether the token was known.
    unfoldable pub matrix_serve_conn_auth : List (List ℕ × ℕ) → ℕ → E → S → Option (Bool × S × E)
    matrix_serve_conn_auth auth fuel eng fd =
        let (principal, fd) = authenticate_conn auth fd in
        elim principal [
          | none ↦ some (false, fd, eng)
          | some p ↦
              serve_until_closed (λ e req. matrix_serve api e policy p req) fuel eng fd >>= λ r.
              some (true, r.0, r.1)
        ]

  -- `MatrixClient` over the descriptor `fd`; `none` where a call gives false.
  unfoldable pub round_trip : Request → S → Option Response × S
  round_trip req fd =
      let (sent, fd) = send_frame (serialize_request req) fd in
      elim sent [
        | false ↦ (none, fd)
        | true ↦ let (bytes, fd) = recv_frame max_message fd in (bytes >>= deserialize_response, fd)
      ]

  unfoldable pub client_authenticate : List ℕ → S → Bool × S
  client_authenticate token fd = send_frame token fd

  unfoldable pub client_get : ℕ → S → Option ℕ × S
  client_get key fd =
      let (resp, fd) =
        round_trip (record { kind = 1; key = key; value = 0; query = default_query }) fd in
      (resp >>= λ r. if not (r.status == 0) then none else first_of r.results, fd)

  unfoldable pub client_put : ℕ → ℕ → S → Bool × S
  client_put key value fd =
      let (resp, fd) =
        round_trip (record { kind = 2; key = key; value = value; query = default_query }) fd in
      (elim resp [ none ↦ false | some r ↦ r.status == 0 ], fd)

  -- the status and the results of a query
  unfoldable pub client_query : Query → S → Option (ℕ × List ℕ) × S
  client_query q fd =
      let (resp, fd) = round_trip (record { kind = 3; key = 0; value = 0; query = q }) fd in
      (resp >>= λ r. some (r.status, r.results), fd)

  -- the words of a snapshot of so many fields
  unfoldable pub snapshot : ℕ → ℕ → S → Option (List ℕ) × S
  snapshot kind fields fd =
      let (resp, fd) =
        round_trip (record { kind = kind; key = 0; value = 0; query = default_query }) fd in
      (
        resp >>= λ r.
            if not (r.status == 0) || not (length r.results == fields)
            then none
            else some r.results,
        fd,
      )

  unfoldable pub client_health : S → Option HealthStatus × S
  client_health fd = let (words, fd) = snapshot 4 6 fd in (words >>= λ f. some (health_of f), fd)

  unfoldable pub client_stats : S → Option (List ℕ) × S
  client_stats fd = snapshot 5 12 fd

  unfoldable pub server_version : S → ℕ × S
  server_version fd =
      let (words, fd) = client_stats fd in (elim words [ none ↦ 0 | some s ↦ get_or s 11 0 ], fd)
