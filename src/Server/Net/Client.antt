-- ===== src/Server/Net/Client.antt =====
-- The client of client.hpp and a connection of server_tcp.hpp, one at each end.
use matrixdb.Prelude.{
  ℕ, ◌^◌, ◌≤◌, ◌<◌, ◌≡◌, refl, ap, ◌∙◌, true, some, List, ◌++◌, append-nil, length, length-append,
  arith,
}
use matrixdb.Prelude.Bytes.{length-to_bytes}
use matrixdb.Server.Wire.{
  Request, Response, serialize_query, serialize_request, serialize_response, deserialize_response,
}
use matrixdb.Server.Wire.RoundTrip.{
  IsQuery, AllWord, deserialize_request-serialize_request, deserialize_response-serialize_response,
}
use matrixdb.Server.Access.{AccessPolicy}
use matrixdb.Server.Dispatch.{EngineApi, authorized, dispatch, serve, serve_core, matrix_serve}
use matrixdb.Server.Net.{Socket, max_message, send_frame, recv_frame, matrix_serve_conn, round_trip}
use matrixdb.Server.Net.Stream.{Stream, Live, At, frame, send_frame_exact, recv_frame_exact}
use matrixdb.Server.Net.Session.{
  FewResults, length-serialize_response, serve_framed_exact, matrix_serve_short,
}

-- a request that the protocol carries
pub record IsRequest (r : Request) : Type 0 where
  pub from : 1 ≤ r.kind
  pub to : r.kind ≤ 5
  pub cmp : r.query.cmp ≤ 6
  pub key : r.key < 256 ^ 8
  pub value : r.value < 256 ^ 8
  pub query : IsQuery r.query

-- a response that the protocol carries, in a frame that the client takes
pub record IsResponse (r : Response) : Type 0 where
  pub status : r.status < 256 ^ 4
  pub few : length (serialize_response r) ≤ max_message
  pub words : AllWord r.results

length-serialize_request : (r : Request) → length (serialize_request r) ≡ 106
unfolding serialize_request serialize_query
length-serialize_request r = simp (length-append, length-to_bytes)

module _ {E : Type 0} (api : EngineApi E) (policy : AccessPolicy) (principal : ℕ) (eng : E)
    (req : Request) where
  -- the message that answers the request
  abbrev pub reply : List ℕ
  reply = serialize_response (dispatch api eng req).0

  served_request :
      IsRequest req
      → authorized policy principal req ≡ true
      → matrix_serve api eng policy principal (serialize_request req)
        ≡ (reply, (dispatch api eng req).1)
  unfolding matrix_serve serve_core serve
  served_request r y =
      rw
        (
          serve,
          deserialize_request-serialize_request req r.from r.to r.cmp r.key r.value r.query,
          y,
        )
        refl

  -- The client at one end, over `fdc`, and the server's connection at the other, over `fds`.
  module _ {C S : Type 0} (sock_c : Socket C) (sock_s : Socket S) (st_c : Stream sock_c)
      (st_s : Stream sock_s) (live_c : Live sock_c st_c) (live_s : Live sock_s st_s) where
    -- what a round trip comes to, when `later` is still to come to the client and `more` to the server
    unfoldable pub Exchange : C → S → List ℕ → List ℕ → Type 0
    Exchange fdc fds later more =
        ((round_trip sock_c req fdc).0 ≡ some (dispatch api eng req).0)
        × At sock_c st_c fdc (round_trip sock_c req fdc).1 (frame (serialize_request req)) later
        × (fds' : S) × (matrix_serve_conn sock_s api policy principal eng fds
            ≡ (true, fds', (dispatch api eng req).1))
        × At sock_s st_s fds fds' (frame reply) more

    -- Over streams on which nothing fails, for an engine that never gives more than 2 ^ 28 results, a request and a response
    -- that the protocol carries and a principal that may make the request: when the server has the frame with the request in
    -- front of it and the client the frame with the reply, the client's call gives what the engine answers, the client has
    -- sent just the frame that the server reads, and the server has sent just the frame that the client reads and has the
    -- engine that the request leaves.
    pub round_trip-Exchange :
        FewResults api
        → IsRequest req
        → authorized policy principal req ≡ true
        → IsResponse (dispatch api eng req).0
        → (fdc : C) (fds : S) (later more : List ℕ)
        → st_s.incoming fds ≡ frame (serialize_request req) ++ more
        → st_c.incoming fdc ≡ frame reply ++ later
        → Exchange fdc fds later more
    unfolding Exchange round_trip matrix_serve_conn
    round_trip-Exchange few r y a fdc fds later more h k =
        let bytes = serialize_request req in
        let size : length bytes ≡ 106 = length-serialize_request req in
        let (sent, at) = send_frame_exact sock_c st_c live_c bytes fdc (omega (arith, size)) in
        let fd1 = (send_frame sock_c bytes fdc).1 in
        let (got, at2) =
          recv_frame_exact sock_c st_c live_c max_message reply later fd1 a.few (omega arith)
            (at.coming ∙ k) in
        let fits : length (dispatch api eng req).0.results ≤ 2 ^ 28 =
          omega (arith, a.few, length-serialize_response (dispatch api eng req).0) in
        let read : deserialize_response reply ≡ some (dispatch api eng req).0 =
          deserialize_response-serialize_response (dispatch api eng req).0 a.status fits a.words in
        let (fds', s, at3) =
          serve_framed_exact sock_s st_s live_s (λ e q. matrix_serve api e policy principal q)
            (λ e q. matrix_serve_short api few e policy principal q) eng fds bytes more
            (omega (arith, size)) h in
        let served = served_request r y in
        let answered : (round_trip sock_c req fdc)
            ≡ (some (dispatch api eng req).0, (recv_frame sock_c max_message fd1).1) =
          rw (round_trip, sent, got, read) refl in
        (
          ap (λ p. p.0) answered,
          record {
            sent =
                ap (λ p. st_c.outgoing p.1) answered
                ∙ at2.sent
                ∙ append-nil (st_c.outgoing fd1)
                ∙ at.sent;
            coming = ap (λ p. st_c.incoming p.1) answered ∙ at2.coming;
          },
          fds',
          s ∙ ap (λ p. (true, fds', p.1)) served,
          record {
            sent = at3.sent ∙ ap (λ p. st_s.outgoing fds ++ frame p.0) served;
            coming = at3.coming;
          },
        )
