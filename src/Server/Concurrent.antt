-- ===== src/Server/Concurrent.antt =====
-- `ConcurrentServer::serve` of concurrent_server.hpp: which lock a request takes, and the answer of a query from
-- the shared read path. One call is one step; what the mutex promises about steps of other threads is not modelled.
use matrixdb.Prelude.{
  ℕ, ◌≡◌, ◌⊎◌, inl, inr, refl, sym, ap, ◌∙◌, Bool, true, false, not, ◌&&◌, ◌||◌, Option, none, some,
  List, ◌==◌, if◌then◌else◌, arith, Bool-cases, Option-cases,
}
use matrixdb.Server.Wire.{Query, Request, deserialize_request, serialize_response}
use matrixdb.Server.Access.{AccessPolicy, can_query}
use matrixdb.Server.Dispatch.{EngineApi, authorized, dispatch, serve, serve_core, matrix_serve}

pub data Lock : Type 0 where
  shared_lock exclusive_lock : Lock

module _ {E : Type 0} (api : EngineApi E) (execute_query_shared : E → Query → Option (List ℕ)) where
  -- A query of a principal that may run it: from the shared path, or else under the exclusive lock.
  unfoldable pub serve_query : E → AccessPolicy → ℕ → List ℕ → Request → Lock × (List ℕ × E)
  serve_query eng policy principal req_bytes req = elim (execute_query_shared eng req.query) [
    | some out ↦ (shared_lock, (serialize_response (record { status = 0; results = out }), eng))
    | none ↦ (exclusive_lock, matrix_serve api eng policy principal req_bytes)
  ]

  unfoldable pub serve_request :
      E → AccessPolicy → ℕ → List ℕ → Option Request → Lock × (List ℕ × E)
  serve_request eng policy principal req_bytes none =
      (shared_lock, matrix_serve api eng policy principal req_bytes)
  serve_request eng policy principal req_bytes (some req) =
      if req.kind == 3
      then (if can_query policy principal req.query.value_col
            && (not req.query.grouped || can_query policy principal req.query.key_col)
          then serve_query eng policy principal req_bytes req
          else (shared_lock, matrix_serve api eng policy principal req_bytes))
      else if req.kind == 2
      then (exclusive_lock, matrix_serve api eng policy principal req_bytes)
      else (shared_lock, matrix_serve api eng policy principal req_bytes)

  unfoldable pub serve_concurrent : E → AccessPolicy → ℕ → List ℕ → Lock × (List ℕ × E)
  serve_concurrent eng policy principal req_bytes =
      serve_request eng policy principal req_bytes (deserialize_request req_bytes)

  -- What the read path promises at an engine: what it serves is what the exclusive path answers, with the status OK.
  pub record Agrees (eng : E) : Type 0 where
    pub agrees :
        (q : Query) (out : List ℕ)
        → execute_query_shared eng q ≡ some out
        → ((api.execute_query eng q).0 ≡ 0) × ((api.execute_query eng q).1 ≡ out)

  module _ (eng : E) (policy : AccessPolicy) (principal : ℕ) (req_bytes : List ℕ) where
    -- the answer of matrix_serve, and an engine that only the exclusive lock lets change
    unfoldable pub Sound : Lock × (List ℕ × E) → Type 0
    Sound r =
        (r.1.0 ≡ (matrix_serve api eng policy principal req_bytes).0)
        × ((r.0 ≡ exclusive_lock) ⊎ (r.1.1 ≡ eng))

    served_malformed :
        deserialize_request req_bytes ≡ none
        → (matrix_serve api eng policy principal req_bytes).1 ≡ eng
    unfolding matrix_serve serve_core serve
    served_malformed e = rw (serve, e) refl

    dispatch_reading :
        (req : Request)
        → (req.kind == 3) ≡ false
        → (req.kind == 2) ≡ false
        → (dispatch api eng req).1 ≡ eng
    unfolding dispatch
    dispatch_reading req n3 n2 = ground arith

    dispatch_query :
        (req : Request) (out : List ℕ)
        → Agrees eng
        → (req.kind == 3) ≡ true
        → execute_query_shared eng req.query ≡ some out
        → (dispatch api eng req).0 ≡ record { status = 0; results = out }
    unfolding dispatch
    dispatch_query req out a k h = let (st, results) = a.agrees req.query out h in ground arith

    served_reading :
        (req : Request)
        → deserialize_request req_bytes ≡ some req
        → (req.kind == 3) ≡ false
        → (req.kind == 2) ≡ false
        → (matrix_serve api eng policy principal req_bytes).1 ≡ eng
    unfolding matrix_serve serve_core serve
    served_reading req e n3 n2 = elim (Bool-cases (authorized policy principal req)) [
      | inl y ↦ rw (serve, e, y) (dispatch_reading req n3 n2)
      | inr n ↦ rw (serve, e, n) refl
    ]

    served_forbidden :
        (req : Request)
        → deserialize_request req_bytes ≡ some req
        → authorized policy principal req ≡ false
        → (matrix_serve api eng policy principal req_bytes).1 ≡ eng
    unfolding matrix_serve serve_core serve
    served_forbidden req e n = rw (serve, e, n) refl

    served_query :
        (req : Request) (out : List ℕ)
        → Agrees eng
        → deserialize_request req_bytes ≡ some req
        → (req.kind == 3) ≡ true
        → authorized policy principal req ≡ true
        → execute_query_shared eng req.query ≡ some out
        → (matrix_serve api eng policy principal req_bytes).0
          ≡ serialize_response (record { status = 0; results = out })
    unfolding matrix_serve serve_core serve
    served_query req out a e k y h =
        rw (serve, e, y) (ap serialize_response (dispatch_query req out a k h))

    may_query : Request → Bool
    may_query req =
        can_query policy principal req.query.value_col
        && (not req.query.grouped || can_query policy principal req.query.key_col)

    authorized_query :
        (req : Request) → (req.kind == 3) ≡ true → authorized policy principal req ≡ may_query req
    unfolding authorized may_query
    authorized_query req k = ground arith

    query_served :
        (req : Request) (out : List ℕ)
        → execute_query_shared eng req.query ≡ some out
        → serve_query eng policy principal req_bytes req
          ≡ (shared_lock, (serialize_response (record { status = 0; results = out }), eng))
    unfolding serve_query
    query_served req out h = rw (serve_query, h) refl

    query_escalated :
        (req : Request)
        → execute_query_shared eng req.query ≡ none
        → serve_query eng policy principal req_bytes req
          ≡ (exclusive_lock, matrix_serve api eng policy principal req_bytes)
    unfolding serve_query
    query_escalated req h = rw (serve_query, h) refl

    serve_query-Sound :
        (req : Request)
        → deserialize_request req_bytes ≡ some req
        → Agrees eng
        → (req.kind == 3) ≡ true
        → may_query req ≡ true
        → Sound (serve_query eng policy principal req_bytes req)
    unfolding Sound
    serve_query-Sound req e a k y = elim (Option-cases (execute_query_shared eng req.query)) [
      | inl h ↦ rw (query_escalated req h) (refl, inl refl)
      | inr (out, h) ↦
          rw (query_served req out h)
            (sym (served_query req out a e k (authorized_query req k ∙ y) h), inr refl)
    ]

    if_true-Sound :
        (c : Bool) (x y : Lock × (List ℕ × E)) → c ≡ true → Sound x → Sound (if c then x else y)
    if_true-Sound true x y e h = h
    if_true-Sound false x y e h = cc

    if_false-Sound :
        (c : Bool) (x y : Lock × (List ℕ × E)) → c ≡ false → Sound y → Sound (if c then x else y)
    if_false-Sound true x y e h = cc
    if_false-Sound false x y e h = h

    unchanged_Sound :
        (matrix_serve api eng policy principal req_bytes).1 ≡ eng
        → Sound (shared_lock, matrix_serve api eng policy principal req_bytes)
    unfolding Sound
    unchanged_Sound h = (refl, inr h)

    exclusive_Sound : Sound (exclusive_lock, matrix_serve api eng policy principal req_bytes)
    unfolding Sound
    exclusive_Sound = (refl, inl refl)

    -- the branches of serve_concurrent
    branch :
        (o : Option Request)
        → deserialize_request req_bytes ≡ o
        → Agrees eng
        → Sound (serve_request eng policy principal req_bytes o)
    unfolding serve_request may_query
    branch none e a = unchanged_Sound (served_malformed e)
    branch (some req) e a = elim (Bool-cases (req.kind == 3)) [
      | inl k ↦ if_true-Sound (req.kind == 3) _ _ k (elim (Bool-cases (may_query req)) [
        | inl y ↦ if_true-Sound (may_query req) _ _ y (serve_query-Sound req e a k y)
        | inr n ↦
            if_false-Sound (may_query req) _ _ n
              (unchanged_Sound (served_forbidden req e (authorized_query req k ∙ n)))
      ])
      | inr k ↦ if_false-Sound (req.kind == 3) _ _ k (elim (Bool-cases (req.kind == 2)) [
        | inl w ↦ if_true-Sound (req.kind == 2) _ _ w exclusive_Sound
        | inr w ↦ if_false-Sound (req.kind == 2) _ _ w (unchanged_Sound (served_reading req e k w))
      ])
    ]

    -- If at this engine the shared read path serves what the exclusive one answers: ConcurrentServer answers each
    -- request as matrix_serve does, and either it took the exclusive lock or the engine is as it was.
    pub serve_concurrent-Sound :
        Agrees eng → Sound (serve_concurrent eng policy principal req_bytes)
    unfolding serve_concurrent
    serve_concurrent-Sound a = branch (deserialize_request req_bytes) refl a
