-- ===== src/Server/Tests.antt =====
-- The server's theorems over an engine that counts its commits.
use mathlib.Core.List.{Memᴰ}
use matrixdb.Prelude.{
  ℕ, ◌+◌, ◌<◌, ◌≡◌, refl, ◌⊎◌, true, false, Option, none, some, List, [], ◌∷◌, arith,
}
use matrixdb.Server.Wire.{
  Query, Request, Response, serialize_request, deserialize_request, serialize_response,
}
use matrixdb.Server.Wire.RoundTrip.{IsQuery, deserialize_request-serialize_request}
use matrixdb.Server.Access.{
  AccessPolicy, can_query, contains_pair, authenticate, authenticate-known,
}
use matrixdb.Server.Dispatch.{EngineApi, err_badrequest, err_forbidden, dispatch, matrix_serve}
use matrixdb.Server.Concurrent.{Agrees, Sound, serve_concurrent, serve_concurrent-Sound}
use matrixdb.Server.Gate.{serve_filtered_query}
use matrixdb.Server.Grants.{MayRequest, matrix_serve-MayRequest}

-- an engine that is the number of its commits
abbrev counter : EngineApi ℕ
counter = record {
  kv_get = λ e key. none;
  begin = λ e. e;
  txn_put = λ e key value. e;
  commit = λ e. e + 1;
  execute_query = λ e q. (0, 5 ∷ [], e);
  health = λ e. [];
  stats = λ e. [];
}

abbrev query : Query
query = record {
  value_col = 1;
  agg = 1;
  has_filter = true;
  threshold = 2;
  cmp = 4;
  upper = 0;
  lo_i64 = 0;
  hi_i64 = 0;
  lo_f64 = 0;
  hi_f64 = 0;
  grouped = false;
  key_col = 0;
  num_groups = 0;
  limit = 0;
  filter_col = 2;
}

query-IsQuery : IsQuery query
query-IsQuery = record {
  value_col = omega arith;
  agg = omega arith;
  threshold = omega arith;
  cmp = omega arith;
  upper = omega arith;
  lo_i64 = omega arith;
  hi_i64 = omega arith;
  lo_f64 = omega arith;
  hi_f64 = omega arith;
  key_col = omega arith;
  num_groups = omega arith;
  limit = omega arith;
  filter_col = omega arith;
}

abbrev ask : Request
ask = record { kind = 3; key = 0; value = 0; query = query }

abbrev store : Request
store = record { kind = 2; key = 7; value = 70; query = query }

abbrev answer : Response
answer = record { status = 0; results = 5 ∷ 6 ∷ [] }

-- principal 9 may query column 1 only
abbrev policy : AccessPolicy
policy = record { allow_all = false; cols = (9, 1) ∷ []; read = []; write = [] }

abbrev tokens : List (List ℕ × ℕ)
tokens = (1 ∷ 2 ∷ [], 9) ∷ []

deserialize_request-serialize_request_example :
    deserialize_request (serialize_request ask) ≡ some ask
deserialize_request-serialize_request_example =
    deserialize_request-serialize_request ask (omega arith) (omega arith) (omega arith)
      (omega arith) (omega arith) query-IsQuery

authenticate-known_example :
    ((p : ℕ) → authenticate tokens (1 ∷ 2 ∷ []) ≡ some p → (0 < 2) × Memᴰ (1 ∷ 2 ∷ [], p) tokens)
    × ((p : ℕ)
        → 0 < 2
        → Memᴰ (1 ∷ 2 ∷ [], p) tokens
        → (q : ℕ) × (authenticate tokens (1 ∷ 2 ∷ []) ≡ some q))
authenticate-known_example = authenticate-known tokens (1 ∷ 2 ∷ [])

matrix_serve-MayRequest_example :
    ((deserialize_request (serialize_request ask) ≡ none)
      × (matrix_serve counter 0 policy 9 (serialize_request ask)
          ≡ (serialize_response (record { status = err_badrequest; results = [] }), 0)))
    ⊎ ((req : Request) × (deserialize_request (serialize_request ask) ≡ some req)
        × ((MayRequest policy 9 req
              × (matrix_serve counter 0 policy 9 (serialize_request ask)
                  ≡ (serialize_response (dispatch counter 0 req).0, (dispatch counter 0 req).1)))
            ⊎ ((¬ MayRequest policy 9 req)
                × (matrix_serve counter 0 policy 9 (serialize_request ask)
                    ≡ (serialize_response (record { status = err_forbidden; results = [] }), 0)))))
matrix_serve-MayRequest_example = matrix_serve-MayRequest counter 0 policy 9 (serialize_request ask)

serve_filtered_query_example :
    matrix_serve counter 0 policy 9 (serialize_request ask)
    ≡ (serialize_response (record { status = 0; results = 5 ∷ [] }), 0)
unfolding can_query contains_pair
serve_filtered_query_example =
    serve_filtered_query counter 0 policy 9 ask refl refl (omega arith) (omega arith) (omega arith)
      query-IsQuery refl refl

-- a read path that serves what the counting engine answers
abbrev shared : ℕ → Query → Option (List ℕ)
shared = λ e q. some (5 ∷ [])

shared-Agrees : Agrees counter shared 0
shared-Agrees = record { agrees = λ q out h. (refl, ground arith) }

serve_concurrent-Sound_example :
    Sound counter shared 0 policy 9
      (serialize_request ask)
      (serve_concurrent counter shared 0 policy 9 (serialize_request ask))
serve_concurrent-Sound_example =
    serve_concurrent-Sound counter shared 0 policy 9 (serialize_request ask) shared-Agrees
