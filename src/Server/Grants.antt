-- ===== src/Server/Grants.antt =====
-- Who may do what (`AccessPolicy` of server.hpp), told by the grants alone, and the requests of `matrix_serve` against it.
use mathlib.Core.List.{Memᴰ}
use matrixdb.Prelude.{
  ℕ, ◌≡◌, ap₂, ◌⊎◌, inl, inr, true, false, ◌&&◌, none, some, List, [], ◌∷◌, ◌==◌, Bool-cases, arith,
  ==_iff,
}
use matrixdb.Server.Wire.{Request, serialize_response, deserialize_request}
use matrixdb.Server.Access.{AccessPolicy, contains, contains_pair, can_query, can_read, can_write}
use matrixdb.Server.Dispatch.{
  EngineApi, err_badrequest, err_forbidden, authorized, dispatch, matrix_serve,
}
use matrixdb.Server.Gate.{serve_core_cases}

contains-Memᴰ : (x : ℕ) (xs : List ℕ) → contains x xs ≡ true → Memᴰ x xs
unfolding contains
contains-Memᴰ x [] h = absurd (ground arith)
contains-Memᴰ x (y ∷ ys) h = elim (Bool-cases (x == y)) [
  | inl e ↦ Memᴰ.head ((==_iff x y).0 e)
  | inr n ↦ Memᴰ.tail (contains-Memᴰ x ys (ground arith))
]

Memᴰ-contains : (x : ℕ) (xs : List ℕ) → Memᴰ x xs → contains x xs ≡ true
unfolding contains
Memᴰ-contains x [] m = elim m [ ]
Memᴰ-contains x (y ∷ ys) (Memᴰ.head e) = ground arith
Memᴰ-contains x (y ∷ ys) (Memᴰ.tail m) = ground (arith, Memᴰ-contains x ys m)

contains_pair-Memᴰ : (x c : ℕ) (xs : List (ℕ × ℕ)) → contains_pair x c xs ≡ true → Memᴰ (x, c) xs
unfolding contains_pair
contains_pair-Memᴰ x c [] h = absurd (ground arith)
contains_pair-Memᴰ x c ((y, d) ∷ ys) h = elim (Bool-cases (x == y && c == d)) [
  | inl e ↦
      Memᴰ.head
        (ap₂ (λ a b. (a, b)) ((==_iff x y).0 (ground arith)) ((==_iff c d).0 (ground arith)))
  | inr n ↦ Memᴰ.tail (contains_pair-Memᴰ x c ys (ground arith))
]

Memᴰ-contains_pair : (x c : ℕ) (xs : List (ℕ × ℕ)) → Memᴰ (x, c) xs → contains_pair x c xs ≡ true
unfolding contains_pair
Memᴰ-contains_pair x c [] m = elim m [ ]
Memᴰ-contains_pair x c ((y, d) ∷ ys) (Memᴰ.head e) = ground arith
Memᴰ-contains_pair x c ((y, d) ∷ ys) (Memᴰ.tail m) = ground (arith, Memᴰ-contains_pair x c ys m)

-- A read needs a grant to read, a write one to write, a query one for its value column and, if it is grouped, one for its
-- key column; everybody may ask for health and statistics.
pub record Granted (p : AccessPolicy) (who : ℕ) (req : Request) : Type 0 where
  pub reads : req.kind ≡ 1 → Memᴰ who p.read
  pub writes : req.kind ≡ 2 → Memᴰ who p.write
  pub value_column : req.kind ≡ 3 → Memᴰ (who, req.query.value_col) p.cols
  pub key_column : req.kind ≡ 3 → req.query.grouped ≡ true → Memᴰ (who, req.query.key_col) p.cols

pub MayRequest : AccessPolicy → ℕ → Request → Type 0
MayRequest p who req = (p.allow_all ≡ true) ⊎ Granted p who req

module _ (p : AccessPolicy) (who : ℕ) (req : Request) where
  authorized_sound : authorized p who req ≡ true → MayRequest p who req
  unfolding MayRequest authorized can_read can_write can_query
  authorized_sound h = elim (Bool-cases p.allow_all) [
    | inl all ↦ inl all
    | inr few ↦ inr (record {
      reads = λ k. contains-Memᴰ who p.read (ground arith);
      writes = λ k. contains-Memᴰ who p.write (ground arith);
      value_column = λ k. contains_pair-Memᴰ who req.query.value_col p.cols (ground arith);
      key_column = λ k g. contains_pair-Memᴰ who req.query.key_col p.cols (ground arith);
    })
  ]

  authorized_complete : MayRequest p who req → authorized p who req ≡ true
  unfolding MayRequest authorized can_read can_write can_query
  authorized_complete (inl all) = ground arith
  authorized_complete (inr g) = elim (Bool-cases (req.kind == 1)) [
    | inl r ↦ ground (arith, Memᴰ-contains who p.read (g.reads ((==_iff req.kind 1).0 r)))
    | inr nr ↦ elim (Bool-cases (req.kind == 2)) [
      | inl w ↦ ground (arith, Memᴰ-contains who p.write (g.writes ((==_iff req.kind 2).0 w)))
      | inr nw ↦ elim (Bool-cases (req.kind == 3)) [
        | inl q ↦
            let k : req.kind ≡ 3 = (==_iff req.kind 3).0 q in
            let v = Memᴰ-contains_pair who req.query.value_col p.cols (g.value_column k) in
            elim (Bool-cases req.query.grouped) [
              | inl y ↦
                  ground
                    (arith, v, Memᴰ-contains_pair who req.query.key_col p.cols (g.key_column k y))
              | inr n ↦ ground (arith, v)
            ]
        | inr nq ↦ ground arith
      ]
    ]
  ]

module _ {ℓ} {E : Type ℓ} (api : EngineApi E) where
  -- Bytes that are no request change nothing and are answered by `ERR_BADREQUEST`. A request is answered by the engine if
  -- the policy allows all, or the principal has what it takes: the grant to read for a GET, the grant to write for a PUT,
  -- and for a query the grants for the value column and, if it is grouped, for the key column. Any other request
  -- changes nothing and is answered by `ERR_FORBIDDEN` without results.
  pub matrix_serve-MayRequest :
      (eng : E) (policy : AccessPolicy) (principal : ℕ) (req_bytes : List ℕ)
      → ((deserialize_request req_bytes ≡ none)
          × (matrix_serve api eng policy principal req_bytes
              ≡ (serialize_response (record { status = err_badrequest; results = [] }), eng)))
        ⊎ ((req : Request) × (deserialize_request req_bytes ≡ some req)
            × ((MayRequest policy principal req
                  × (matrix_serve api eng policy principal req_bytes
                      ≡ (serialize_response (dispatch api eng req).0, (dispatch api eng req).1)))
                ⊎ ((¬ MayRequest policy principal req)
                    × (matrix_serve api eng policy principal req_bytes ≡ (
                      serialize_response (record { status = err_forbidden; results = [] }),
                      eng,
                    )))))
  matrix_serve-MayRequest eng policy principal req_bytes =
      elim (serve_core_cases api eng policy principal req_bytes) [
        | inl bad ↦ inl bad
        | inr (req, good, e) ↦ elim (Bool-cases (authorized policy principal req)) [
          | inl y ↦ inr (req, good, inl (authorized_sound policy principal req y, rw y at e))
          | inr n ↦ inr (req, good, inr ((λ g. no_grant policy principal req g n), rw n at e))
        ]
      ]
    where
      no_grant :
          (policy : AccessPolicy) (principal : ℕ) (req : Request)
          → MayRequest policy principal req
          → authorized policy principal req ≡ false
          → ⊥
      no_grant policy principal req g n = ground (arith, authorized_complete policy principal req g)
