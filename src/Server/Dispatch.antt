-- ===== src/Server/Dispatch.antt =====
-- `serve_core` and the `matrix_serve` overloads of server.hpp over an engine's interface.
use matrixdb.Prelude.{
  ℕ, Bool, true, not, ◌&&◌, ◌||◌, Option, none, some, List, [], ◌∷◌, ◌++◌, ◌==◌, if◌then◌else◌,
}
use matrixdb.Server.Wire.{Query, Request, Response, deserialize_request, serialize_response}
use matrixdb.Server.Access.{AccessPolicy, permissive, can_query, can_read, can_write, authenticate}

-- What the server calls on an engine of type `E`; a query changes the engine's counters, and `health`
-- and `stats` give the words that the server packs into the response.
pub record EngineApi {ℓ} (E : Type ℓ) : Type ℓ where
  pub kv_get : E → ℕ → Option ℕ
  pub begin : E → E
  pub txn_put : E → ℕ → ℕ → E
  pub commit : E → E
  pub execute_query : E → Query → ℕ × List ℕ × E
  pub health : E → List ℕ
  pub stats : E → List ℕ

pub record AuditEntry : Type 0 where
  pub principal : ℕ
  pub kind : ℕ
  pub status : ℕ
  pub key : ℕ
  pub column : ℕ

abbrev pub err_badrequest : ℕ
err_badrequest = 1000

abbrev pub err_forbidden : ℕ
err_forbidden = 1001

abbrev pub err_unauthenticated : ℕ
err_unauthenticated = 1002

unfoldable pub authorized : AccessPolicy → ℕ → Request → Bool
authorized policy principal req =
    if req.kind == 1
    then can_read policy principal
    else if req.kind == 2
    then can_write policy principal
    else if req.kind == 3
    then can_query policy principal req.query.value_col
      && (not req.query.grouped || can_query policy principal req.query.key_col)
    else true

module _ {ℓ} {E : Type ℓ} (api : EngineApi E) where
  -- The second `switch`: what an authorized request does.
  unfoldable pub dispatch : E → Request → Response × E
  dispatch eng req =
      if req.kind == 1
      then (
        record {
          status = 0;
          results = elim (api.kv_get eng req.key) [ none ↦ [] | some v ↦ v ∷ [] ];
        },
        eng,
      )
      else if req.kind == 2
      then (
        record { status = 0; results = [] },
        api.commit (api.txn_put (api.begin eng) req.key req.value),
      )
      else if req.kind == 3
      then (let (status, results, eng') = api.execute_query eng req.query in
          (record { status = status; results = results }, eng'))
      else if req.kind == 4
      then (record { status = 0; results = api.health eng }, eng)
      else (record { status = 0; results = api.stats eng }, eng)

  -- The response before it is serialized, the audit record and the engine.
  unfoldable pub serve : E → AccessPolicy → ℕ → List ℕ → Response × AuditEntry × E
  serve eng policy principal req_bytes = elim (deserialize_request req_bytes) [
    | none ↦ (
      record { status = err_badrequest; results = [] },
      record { principal = principal; kind = 0; status = err_badrequest; key = 0; column = 0 },
      eng,
    )
    | some req ↦
        if not (authorized policy principal req)
        then (
          record { status = err_forbidden; results = [] },
          record {
            principal = principal;
            kind = req.kind;
            status = err_forbidden;
            key = req.key;
            column = req.query.value_col;
          },
          eng,
        )
        else (let (resp, eng') = dispatch eng req in
            (
              resp,
              record {
                principal = principal;
                kind = req.kind;
                status = resp.status;
                key = req.key;
                column = req.query.value_col;
              },
              eng',
            ))
  ]

  unfoldable pub serve_core : E → AccessPolicy → ℕ → List ℕ → List ℕ × AuditEntry × E
  serve_core eng policy principal req_bytes =
      let (resp, entry, eng') = serve eng policy principal req_bytes in
      (serialize_response resp, entry, eng')

  -- The overload that appends to an audit log.
  unfoldable pub matrix_serve_audited :
      E → AccessPolicy → ℕ → List ℕ → List AuditEntry → List ℕ × List AuditEntry × E
  matrix_serve_audited eng policy principal req_bytes audit =
      let (resp, entry, eng') = serve_core eng policy principal req_bytes in
      (resp, audit ++ (entry ∷ []), eng')

  unfoldable pub matrix_serve : E → AccessPolicy → ℕ → List ℕ → List ℕ × E
  matrix_serve eng policy principal req_bytes =
      let (resp, entry, eng') = serve_core eng policy principal req_bytes in (resp, eng')

  unfoldable pub matrix_serve_open : E → List ℕ → List ℕ × E
  matrix_serve_open eng req_bytes = matrix_serve eng permissive 0 req_bytes

  unfoldable pub matrix_serve_authenticated :
      E → AccessPolicy → List (List ℕ × ℕ) → List ℕ → List ℕ → List ℕ × E
  matrix_serve_authenticated eng policy auth token req_bytes = elim (authenticate auth token) [
    | none ↦ (serialize_response (record { status = err_unauthenticated; results = [] }), eng)
    | some principal ↦ matrix_serve eng policy principal req_bytes
  ]
