-- ===== src/Server/Gate.antt =====
-- What requests do to an engine, by authorization.
use matrixdb.Prelude.{
  ℕ, ◌^◌, ◌≤◌, ◌<◌, ◌≡◌, refl, ◌⊎◌, inl, inr, true, false, none, some, List, [], ◌∷◌, ◌++◌,
  if◌then◌else◌, Bool-cases, Option-cases, arith,
}
use matrixdb.Server.Wire.{
  Request, Response, serialize_request, deserialize_request, serialize_response,
}
use matrixdb.Server.Wire.RoundTrip.{IsQuery, deserialize_request-serialize_request}
use matrixdb.Server.Access.{AccessPolicy, can_query, can_write, authenticate}
use matrixdb.Server.Dispatch.{
  EngineApi, AuditEntry, err_badrequest, err_forbidden, err_unauthenticated, authorized, dispatch,
  serve, serve_core, matrix_serve_audited, matrix_serve, matrix_serve_authenticated,
}

module _ {ℓ} {E : Type ℓ} (api : EngineApi E) where
  -- Bytes that are no request change nothing and are answered by `ERR_BADREQUEST`; a request that the
  -- policy does not allow changes nothing and is answered by `ERR_FORBIDDEN` without results; any
  -- other request is answered by what the dispatch gives.
  pub serve_core_cases :
      (eng : E) (policy : AccessPolicy) (principal : ℕ) (req_bytes : List ℕ)
      → ((deserialize_request req_bytes ≡ none)
          × (matrix_serve api eng policy principal req_bytes
              ≡ (serialize_response (record { status = err_badrequest; results = [] }), eng)))
        ⊎ ((req : Request) × (deserialize_request req_bytes ≡ some req)
            × (matrix_serve api eng policy principal req_bytes ≡ (
                if authorized policy principal req
                then (serialize_response (dispatch api eng req).0, (dispatch api eng req).1)
                else (serialize_response (record { status = err_forbidden; results = [] }), eng))))
  unfolding matrix_serve serve_core serve
  serve_core_cases eng policy principal req_bytes =
      elim (Option-cases (deserialize_request req_bytes)) [
        | inl bad ↦ inl (bad, rw (serve, bad) refl)
        | inr (req, good) ↦ elim (Bool-cases (authorized policy principal req)) [
          | inl yes' ↦ inr (req, good, rw (serve, good, yes') refl)
          | inr no' ↦ inr (req, good, rw (serve, good, no') refl)
        ]
      ]

  -- The audited overload answers and acts as the plain one, and appends one entry, which names the
  -- principal and the status that the response carries.
  pub matrix_serve_audited_lem :
      (eng : E) (policy : AccessPolicy) (principal : ℕ) (req_bytes : List ℕ)
      (audit : List AuditEntry)
      → (resp : Response) × (entry : AuditEntry) × (matrix_serve_audited api eng policy principal
            req_bytes audit
          ≡ (
            serialize_response resp,
            audit ++ (entry ∷ []),
            (matrix_serve api eng policy principal req_bytes).1,
          ))
        × ((matrix_serve api eng policy principal req_bytes).0 ≡ serialize_response resp)
        × (entry.principal ≡ principal)
        × (entry.status ≡ resp.status)
  unfolding matrix_serve_audited matrix_serve serve_core serve
  matrix_serve_audited_lem eng policy principal req_bytes audit = (
    (serve api eng policy principal req_bytes).0,
    (serve api eng policy principal req_bytes).1,
    refl,
    refl,
    who,
    status,
  )
    where
      who : (serve api eng policy principal req_bytes).1.principal ≡ principal
      who = elim (Option-cases (deserialize_request req_bytes)) [
        | inl bad ↦ rw (serve, bad) refl
        | inr (req, good) ↦ elim (Bool-cases (authorized policy principal req)) [
          | inl yes' ↦ rw (serve, good, yes') refl
          | inr no' ↦ rw (serve, good, no') refl
        ]
      ]

      status :
          (serve api eng policy principal req_bytes).1.status
          ≡ (serve api eng policy principal req_bytes).0.status
      status = elim (Option-cases (deserialize_request req_bytes)) [
        | inl bad ↦ rw (serve, bad) refl
        | inr (req, good) ↦ elim (Bool-cases (authorized policy principal req)) [
          | inl yes' ↦ rw (serve, good, yes') refl
          | inr no' ↦ rw (serve, good, no') refl
        ]
      ]

  -- A token that does not authenticate reaches no engine: the answer is `ERR_UNAUTHENTICATED`; else
  -- the request is served for the principal of the token.
  pub matrix_serve_authenticated_cases :
      (eng : E) (policy : AccessPolicy) (auth : List (List ℕ × ℕ)) (token req_bytes : List ℕ)
      → ((authenticate auth token ≡ none)
          × (matrix_serve_authenticated api eng policy auth token req_bytes
              ≡ (serialize_response (record { status = err_unauthenticated; results = [] }), eng)))
        ⊎ ((principal : ℕ) × (authenticate auth token ≡ some principal)
            × (matrix_serve_authenticated api eng policy auth token req_bytes
                ≡ matrix_serve api eng policy principal req_bytes))
  unfolding matrix_serve_authenticated
  matrix_serve_authenticated_cases eng policy auth token req_bytes =
      elim (Option-cases (authenticate auth token)) [
        | inl unknown ↦ inl (unknown, rw (matrix_serve_authenticated, unknown) refl)
        | inr (p, known) ↦ inr (p, known, rw (matrix_serve_authenticated, known) refl)
      ]

module _ {ℓ} {E : Type ℓ} (api : EngineApi E) (eng : E) (policy : AccessPolicy)
    (principal : ℕ) where
  -- A well-formed query without grouping on a column that the principal may query reaches the engine
  -- with its filter on any column, one that the principal may not query included.
  pub serve_filtered_query :
      (req : Request)
      → req.kind ≡ 3
      → req.query.grouped ≡ false
      → req.query.cmp ≤ 6
      → req.key < 256 ^ 8
      → req.value < 256 ^ 8
      → IsQuery req.query
      → can_query policy principal req.query.value_col ≡ true
      → can_query policy principal req.query.filter_col ≡ false
      → matrix_serve api eng policy principal (serialize_request req) ≡ (
        serialize_response (record {
          status = (api.execute_query eng req.query).0;
          results = (api.execute_query eng req.query).1;
        }),
        (api.execute_query eng req.query).2,
      )
  unfolding matrix_serve serve_core serve authorized dispatch
  serve_filtered_query req kind plain cmp key value q may may_not =
      let reads : deserialize_request (serialize_request req) ≡ some req =
        deserialize_request-serialize_request req (omega arith) (omega arith) cmp key value q in
      rw (serve, reads, kind, may, plain) refl

  -- A well-formed write of a principal that may write runs one transaction with that write on the
  -- engine, and is answered by `OK`; of another principal it leaves the engine alone, and is answered
  -- by `ERR_FORBIDDEN`.
  pub serve_put :
      (req : Request)
      → req.kind ≡ 2
      → req.query.cmp ≤ 6
      → req.key < 256 ^ 8
      → req.value < 256 ^ 8
      → IsQuery req.query
      → matrix_serve api eng policy principal (serialize_request req) ≡ (
          if can_write policy principal
          then (
            serialize_response (record { status = 0; results = [] }),
            api.commit (api.txn_put (api.begin eng) req.key req.value),
          )
          else (serialize_response (record { status = err_forbidden; results = [] }), eng))
  unfolding matrix_serve serve_core serve authorized dispatch
  serve_put req kind cmp key value q =
      let reads : deserialize_request (serialize_request req) ≡ some req =
        deserialize_request-serialize_request req (omega arith) (omega arith) cmp key value q in
      elim (Bool-cases (can_write policy principal)) [
        | inl may ↦ rw (serve, reads, kind, may) refl
        | inr may_not ↦ rw (serve, reads, kind, may_not) refl
      ]
