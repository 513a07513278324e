-- ===== src/Server/Net/Session.antt =====
-- Whole connections of server_tcp.hpp: the requests that come in, one after the other, and what is sent back.
use matrixdb.Prelude.{
  ℕ, zero, suc, ◌+◌, ◌*◌, ◌^◌, ◌≤◌, ◌<◌, ◌≡◌, refl, ap, ◌∙◌, inl, inr, Bool, true, false,
  Bool-cases, Option, none, some, List, [], ◌∷◌, ◌++◌, append_assoc, append-nil, length,
  length-append, arith,
}
use matrixdb.Prelude.Bytes.{to_bytes, length-to_bytes}
use matrixdb.Prelude.Maps.{◌>>=◌}
use matrixdb.Server.Wire.{Query, Request, Response, serialize_response, words_bytes}
use matrixdb.Server.Wire.RoundTrip.{length-words_bytes}
use matrixdb.Server.Access.{AccessPolicy, authenticate}
use matrixdb.Server.Dispatch.{EngineApi, authorized, dispatch, matrix_serve}
use matrixdb.Server.Gate.{serve_core_cases}
use matrixdb.Server.Net.{
  Socket, max_message, send_frame, recv_frame, serve_framed, serve_until_closed, authenticate_conn,
  matrix_serve_conn_auth,
}
use matrixdb.Server.Net.Stream.{
  Stream, Live, At, frame, send_frame_exact, recv_frame_exact, recv_frame_end,
}

unfoldable pub frames : List (List ℕ) → List ℕ
frames [] = []
frames (b ∷ bs) = frame b ++ frames bs

unfoldable pub AllShort : List (List ℕ) → Type 0
AllShort [] = Unit
AllShort (b ∷ bs) = (length b ≤ max_message) × AllShort bs

-- requests answered one after the other
unfoldable pub answer_all :
    {E : Type 0} → (E → List ℕ → List ℕ × E) → List (List ℕ) → E → List (List ℕ) × E
answer_all handle [] eng = ([], eng)
answer_all handle (req ∷ reqs) eng =
    let (resp, eng) = handle eng req in
    let (resps, eng) = answer_all handle reqs eng in (resp ∷ resps, eng)

module _ {S : Type 0} (sock : Socket S) (st : Stream sock) (live : Live sock st) where
  module _ {E : Type 0} (handle : E → List ℕ → List ℕ × E)
      (short : (eng : E) (req : List ℕ) → length (handle eng req).0 < 2 ^ 32) where
    pub serve_framed_exact :
        (eng : E) (fd : S) (req rest : List ℕ)
        → length req ≤ max_message
        → st.incoming fd ≡ frame req ++ rest
        → (fd' : S) × (serve_framed sock handle eng fd ≡ (true, fd', (handle eng req).1))
          × At sock st fd fd' (frame (handle eng req).0) rest
    unfolding serve_framed
    serve_framed_exact eng fd req rest h e =
        let resp = (handle eng req).0 in
        let fd1 = (recv_frame sock max_message fd).1 in
        let (r, a) = recv_frame_exact sock st live max_message req rest fd h (omega arith) e in
        let (r2, a2) = send_frame_exact sock st live resp fd1 (short eng req) in
        (
          (send_frame sock resp fd1).1,
          rw (serve_framed, r, r2) refl,
          record {
            sent = a2.sent ∙ ap (λ o. o ++ frame resp) (a.sent ∙ append-nil (st.outgoing fd));
            coming = a2.coming ∙ a.coming;
          },
        )

    serve_framed_end :
        (eng : E) (fd : S)
        → st.incoming fd ≡ []
        → (fd' : S) × (serve_framed sock handle eng fd ≡ (false, fd', eng))
          × At sock st fd fd' [] []
    unfolding serve_framed
    serve_framed_end eng fd e =
        let (r, a) = recv_frame_end sock st live max_message fd e in
        ((recv_frame sock max_message fd).1, rw (serve_framed, r) refl, a)

    pub serve_until_closed_exact :
        (reqs : List (List ℕ)) (fuel : ℕ) (eng : E) (fd : S)
        → AllShort reqs
        → length reqs < fuel
        → st.incoming fd ≡ frames reqs
        → (fd' : S) × (serve_until_closed sock handle fuel eng fd
            ≡ some (fd', (answer_all handle reqs eng).1))
          × At sock st fd fd' (frames (answer_all handle reqs eng).0) []
    unfolding serve_until_closed answer_all frames AllShort
    serve_until_closed_exact reqs zero eng fd h f e = absurd (omega arith)
    serve_until_closed_exact [] (suc fuel) eng fd h f e =
        let (fd', r, a) = serve_framed_end eng fd e in (fd', rw r refl, a)
    serve_until_closed_exact (req ∷ reqs) (suc fuel) eng fd h f e =
        let (fd1, r, a) = serve_framed_exact eng fd req (frames reqs) h.0 e in
        let eng' = (handle eng req).1 in
        let (fd', r2, a2) =
          serve_until_closed_exact reqs fuel eng' fd1 h.1 (omega arith) a.coming in
        (
          fd',
          rw (r, r2) refl,
          record {
            sent =
                a2.sent
                ∙ ap (λ o. o ++ frames (answer_all handle reqs eng').0) a.sent
                ∙ append_assoc (st.outgoing fd) (frame (handle eng req).0)
                    (frames (answer_all handle reqs eng').0);
            coming = a2.coming;
          },
        )

-- An engine that never gives more results than the codec allows.
pub record FewResults {E : Type 0} (api : EngineApi E) : Type 0 where
  pub query_results : (eng : E) (q : Query) → length (api.execute_query eng q).1 ≤ 2 ^ 28
  pub health_results : (eng : E) → length (api.health eng) ≤ 2 ^ 28
  pub stats_results : (eng : E) → length (api.stats eng) ≤ 2 ^ 28

pub length-serialize_response :
    (r : Response) → length (serialize_response r) ≡ 12 + length r.results * 8
unfolding serialize_response
length-serialize_response r = omega (
  arith,
  length-append (to_bytes 4 r.status) (to_bytes 8 (length r.results) ++ words_bytes r.results),
  length-append (to_bytes 8 (length r.results)) (words_bytes r.results),
  length-to_bytes 4 r.status,
  length-to_bytes 8 (length r.results),
  length-words_bytes r.results,
)

module _ {E : Type 0} (api : EngineApi E) (few : FewResults api) where
  dispatch_few : (eng : E) (req : Request) → length (dispatch api eng req).0.results ≤ 2 ^ 28
  unfolding dispatch
  dispatch_few eng req =
      ground (arith, few.query_results eng req.query, few.health_results eng, few.stats_results eng)

  pub matrix_serve_short :
      (eng : E) (policy : AccessPolicy) (principal : ℕ) (req : List ℕ)
      → length (matrix_serve api eng policy principal req).0 < 2 ^ 32
  matrix_serve_short eng policy principal req =
      elim (serve_core_cases api eng policy principal req) [
        | inl (bad, e) ↦ rw e (omega (arith, length-serialize_response _))
        | inr (r, good, e) ↦ rw e (elim (Bool-cases (authorized policy principal r)) [
          | inl y ↦
              rw y (
                omega (arith, length-serialize_response (dispatch api eng r).0, dispatch_few eng r))
          | inr n ↦ rw n (omega (arith, length-serialize_response _))
        ])
      ]

-- what a connection whose token stands for `principal`, if for anyone, comes to
unfoldable pub connection :
    {E : Type 0} → EngineApi E → AccessPolicy → Option ℕ → List (List ℕ) → E → List (List ℕ) × E
connection api policy none reqs eng = ([], eng)
connection api policy (some p) reqs eng =
    answer_all (λ e req. matrix_serve api e policy p req) reqs eng

abbrev pub known : Option ℕ → Bool
known none = false
known (some p) = true

-- what is left unread
abbrev pub unread : Option ℕ → List (List ℕ) → List ℕ
unread none reqs = frames reqs
unread (some p) reqs = []

module _ {S : Type 0} (sock : Socket S) (st : Stream sock) (live : Live sock st) where
  module _ {E : Type 0} (api : EngineApi E) (few : FewResults api) (policy : AccessPolicy)
      (auth : List (List ℕ × ℕ)) where
    served :
        (o : Option ℕ) (fuel : ℕ) (eng : E) (fd fd1 : S) (reqs : List (List ℕ))
        → AllShort reqs
        → length reqs < fuel
        → At sock st fd fd1 [] (frames reqs)
        → (fd' : S) × ((elim o as (λ x. Option (Bool × S × E)) [
          | none ↦ some (false, fd1, eng)
          | some p ↦
              serve_until_closed sock (λ e req. matrix_serve api e policy p req) fuel eng fd1
              >>= λ r. some (true, r.0, r.1)
        ])
            ≡ some (known o, fd', (connection api policy o reqs eng).1))
          × At sock st fd fd' (frames (connection api policy o reqs eng).0) (unread o reqs)
    unfolding connection frames
    served none fuel eng fd fd1 reqs h f a = (fd1, refl, a)
    served (some p) fuel eng fd fd1 reqs h f a =
        let handle = λ (e : E) (req : List ℕ). matrix_serve api e policy p req in
        let (fd', r, a2) =
          serve_until_closed_exact sock st live handle
            (λ e req. matrix_serve_short api few e policy p req) reqs fuel eng fd1 h f a.coming in
        (
          fd',
          rw r refl,
          record {
            sent =
                a2.sent
                ∙ ap (λ o. o ++ frames (answer_all handle reqs eng).0)
                    (a.sent ∙ append-nil (st.outgoing fd));
            coming = a2.coming;
          },
        )

    -- Over a stream on which nothing fails, for an engine that never gives more than 2 ^ 28 results, when the bytes of a
    -- connection are a frame with a token of at most 4096 bytes and then frames with requests of at most 2 ^ 28 bytes: an
    -- unknown token has nothing read further, nothing sent and the engine as it was; with a known one each request is
    -- answered in order as matrix_serve answers its principal, the responses are sent as frames and the loop ends, within
    -- one round more than there are requests.
    pub matrix_serve_conn_auth-connection :
        (fuel : ℕ) (eng : E) (fd : S) (token : List ℕ) (reqs : List (List ℕ))
        → length token ≤ 4096
        → AllShort reqs
        → length reqs < fuel
        → st.incoming fd ≡ frame token ++ frames reqs
        → let principal = authenticate auth token in
          (fd' : S) × (matrix_serve_conn_auth sock api policy auth fuel eng fd
            ≡ some (known principal, fd', (connection api policy principal reqs eng).1))
          × At sock st fd fd'
              (frames (connection api policy principal reqs eng).0)
              (unread principal reqs)
    unfolding matrix_serve_conn_auth authenticate_conn
    matrix_serve_conn_auth-connection fuel eng fd token reqs t h f e =
        let fd1 = (recv_frame sock 4096 fd).1 in
        let (r, a) = recv_frame_exact sock st live 4096 token (frames reqs) fd t (omega arith) e in
        rw (matrix_serve_conn_auth, authenticate_conn, r)
          (served (authenticate auth token) fuel eng fd fd1 reqs h f a)
