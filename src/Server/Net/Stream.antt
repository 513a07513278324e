-- ===== src/Server/Net/Stream.antt =====
-- `recv_all`, `send_all` and the frames of server_tcp.hpp over a stream socket.
use matrixdb.Prelude.{
  ℕ, zero, suc, ◌-◌, ◌%◌, ◌^◌, ◌≤◌, ◌<◌, ◌≡◌, refl, ap, ap₂, sym, ◌∙◌, inl, inr, true, false, none,
  some, Bool-cases, List, [], ◌∷◌, ◌++◌, append_assoc, append-nil, length, length-append, take,
  drop, take-append-drop, length-drop, ltb, ◌==◌, arith,
}
use matrixdb.Prelude.Bytes.{to_bytes, of_bytes, length-to_bytes, of_bytes-to_bytes}
use matrixdb.Server.Net.{Socket, recv_loop, recv_all, send_loop, send_all, send_frame, recv_frame}

-- A stream socket, told by the bytes that are still to come and those that have been sent.
pub record Stream {S : Type 0} (sock : Socket S) : Type 0 where
  pub incoming : S → List ℕ
  pub outgoing : S → List ℕ
  pub recv-length : (fd : S) (n : ℕ) → length (sock.recv fd n).0 ≤ n
  pub recv-incoming :
      (fd : S) (n : ℕ) → incoming fd ≡ (sock.recv fd n).0 ++ incoming (sock.recv fd n).1
  pub recv-outgoing : (fd : S) (n : ℕ) → outgoing (sock.recv fd n).1 ≡ outgoing fd
  pub send-length : (fd : S) (b : List ℕ) → (sock.send fd b).0 ≤ length b
  pub send-incoming : (fd : S) (b : List ℕ) → incoming (sock.send fd b).1 ≡ incoming fd
  pub send-outgoing :
      (fd : S) (b : List ℕ) → outgoing (sock.send fd b).1 ≡ outgoing fd ++ take (sock.send fd b).0 b

-- Nothing fails on the way: what is there is received, if only in part, and something of what is sent is taken.
pub record Live {S : Type 0} (sock : Socket S) (st : Stream sock) : Type 0 where
  pub recv_some :
      (fd : S) (n : ℕ) → 1 ≤ n → 1 ≤ length (st.incoming fd) → 1 ≤ length (sock.recv fd n).0
  pub send_some : (fd : S) (b : List ℕ) → 1 ≤ length b → 1 ≤ (sock.send fd b).0

unfoldable pub frame : List ℕ → List ℕ
frame b = to_bytes 4 (length b) ++ b

split_append :
    (b x y rest : List ℕ)
    → x ++ rest ≡ b ++ y
    → length b ≤ length x
    → (x ≡ b ++ drop (length b) x) × (y ≡ drop (length b) x ++ rest)
split_append [] x y rest e l = (refl, sym e)
split_append (c ∷ b) [] y rest e l = absurd (omega arith)
split_append (c ∷ b) (d ∷ x) y rest e l =
    let (h, t) = cons_injective e in
    let (u, v) = split_append b x y rest t (omega arith) in (ap₂ (λ a w. a ∷ w) h u, v)
  where
    cons_injective : {a c : ℕ} {u v : List ℕ} → a ∷ u ≡ c ∷ v → (a ≡ c) × (u ≡ v)
    cons_injective e = ground (arith, e)

none_left : (b : List ℕ) → (length b == 0) ≡ true → b ≡ []
none_left [] z = refl
none_left (x ∷ b) z = absurd (ground arith)

no_more : (b : List ℕ) → (length b == 0) ≡ true → (head : List ℕ) → head ++ b ≡ head
no_more b z head = ap (λ x. head ++ x) (none_left b z) ∙ append-nil head

nothing_in : (b rest : List ℕ) → [] ≡ b ++ rest → (b ≡ []) × (rest ≡ [])
nothing_in [] rest e = (refl, sym e)
nothing_in (x ∷ b) rest e = cc

take-length : (xs : List ℕ) → take (length xs) xs ≡ xs
take-length [] = refl
take-length (x ∷ xs) = ap (λ r. x ∷ r) (take-length xs)

module _ {S : Type 0} (sock : Socket S) (st : Stream sock) where
  -- `fd` has sent `b` more than `fd0`, and has `rest` still to receive.
  pub record At (fd0 fd : S) (b rest : List ℕ) : Type 0 where
    pub sent : st.outgoing fd ≡ st.outgoing fd0 ++ b
    pub coming : st.incoming fd ≡ rest

  module _ (live : Live sock st) where
    recv_loop_exact :
        (n fuel : ℕ) (fd : S) (x rest : List ℕ)
        → st.incoming fd ≡ x ++ rest
        → length x ≡ n
        → n ≤ fuel
        → ((recv_loop sock n fuel fd).0 ≡ some x) × At fd (recv_loop sock n fuel fd).1 [] rest
    unfolding recv_loop
    recv_loop_exact zero fuel fd [] rest e l f =
        (refl, record { sent = sym (append-nil (st.outgoing fd)); coming = e })
    recv_loop_exact zero fuel fd (y ∷ x) rest e l f = absurd (omega (arith, l))
    recv_loop_exact (suc n) zero fd x rest e l f = absurd (omega arith)
    recv_loop_exact (suc n) (suc fuel) fd x rest e l f =
        let b = (sock.recv fd (suc n)).0 in
        let fd1 = (sock.recv fd (suc n)).1 in
        let some_in : 1 ≤ length (st.incoming fd) =
          omega (arith, ap length e, length-append x rest, l) in
        let some_b : 1 ≤ length b = live.recv_some fd (suc n) (omega arith) some_in in
        let short : length b ≤ length x = omega (arith, l, st.recv-length fd (suc n)) in
        let (u, v) =
          split_append b x (st.incoming fd1) rest (sym e ∙ st.recv-incoming fd (suc n)) short in
        let left : length (drop (length b) x) ≡ suc n - length b =
          omega (arith, length-drop (length b) x, l) in
        let (r, a) =
          recv_loop_exact (suc n - length b) fuel fd1 (drop (length b) x) rest v left
            (omega (arith, some_b, f)) in
        let some_test : (length b == 0) ≡ false = ground (arith, some_b) in
        rw (some_test, r)
          (
            ap some (sym u),
            record {
              sent = a.sent ∙ ap (λ o. o ++ []) (st.recv-outgoing fd (suc n));
              coming = a.coming;
            },
          )

    -- What is in front of the stream is received.
    pub recv_all_exact :
        (fd : S) (n : ℕ) (x rest : List ℕ)
        → length x ≡ n
        → st.incoming fd ≡ x ++ rest
        → ((recv_all sock n fd).0 ≡ some x) × At fd (recv_all sock n fd).1 [] rest
    unfolding recv_all
    recv_all_exact fd n x rest l e = recv_loop_exact n n fd x rest e l (omega arith)

    send_loop_exact :
        (b : List ℕ) (fuel : ℕ) (fd : S)
        → length b ≤ fuel
        → ((send_loop sock b fuel fd).0 ≡ true)
          × At fd (send_loop sock b fuel fd).1 b (st.incoming fd)
    unfolding send_loop
    send_loop_exact [] fuel fd f =
        (refl, record { sent = sym (append-nil (st.outgoing fd)); coming = refl })
    send_loop_exact (x ∷ xs) zero fd f = absurd (omega arith)
    send_loop_exact (x ∷ xs) (suc fuel) fd f =
        let w = (sock.send fd (x ∷ xs)).0 in
        let fd1 = (sock.send fd (x ∷ xs)).1 in
        let some_w : 1 ≤ w = live.send_some fd (x ∷ xs) (omega arith) in
        let (r, a) =
          send_loop_exact (drop w (x ∷ xs)) fuel fd1
            (omega (arith, length-drop w (x ∷ xs), some_w, f)) in
        let some_test : (w == 0) ≡ false = ground (arith, some_w) in
        rw (some_test, r)
          (
            refl,
            record {
              sent =
                  a.sent
                  ∙ ap (λ o. o ++ drop w (x ∷ xs)) (st.send-outgoing fd (x ∷ xs))
                  ∙ append_assoc (st.outgoing fd) (take w (x ∷ xs)) (drop w (x ∷ xs))
                  ∙ ap (λ o. st.outgoing fd ++ o) (take-append-drop w (x ∷ xs));
              coming = a.coming ∙ st.send-incoming fd (x ∷ xs);
            },
          )

    pub send_all_exact :
        (b : List ℕ) (fd : S)
        → ((send_all sock b fd).0 ≡ true) × At fd (send_all sock b fd).1 b (st.incoming fd)
    unfolding send_all
    send_all_exact b fd = send_loop_exact b (length b) fd (omega arith)

    -- A frame that fits its length field is sent whole.
    pub send_frame_exact :
        (b : List ℕ) (fd : S)
        → length b < 2 ^ 32
        → ((send_frame sock b fd).0 ≡ true)
          × At fd (send_frame sock b fd).1 (frame b) (st.incoming fd)
    unfolding send_frame frame
    send_frame_exact b fd h =
        let len : length b % 2 ^ 32 ≡ length b = omega (arith, h) in
        let head = to_bytes 4 (length b) in
        let fd1 = (send_all sock head fd).1 in
        let (r, a) = send_all_exact head fd in
        rw (len, r)
          (elim (Bool-cases (length b == 0)) [
            | inl z ↦ rw z (
              refl,
              record {
                sent = a.sent ∙ ap (λ o. st.outgoing fd ++ o) (sym (no_more b z head));
                coming = a.coming;
              },
            )
            | inr z ↦
                rw (z, take-length b)
                  (let (r2, a2) = send_all_exact b fd1 in
                    (
                      r2,
                      record {
                        sent =
                            a2.sent
                            ∙ ap (λ o. o ++ b) a.sent
                            ∙ append_assoc (st.outgoing fd) head b;
                        coming = a2.coming ∙ a.coming;
                      },
                    ))
          ])

    -- A frame within the limit is received whole.
    pub recv_frame_exact :
        (limit : ℕ) (b rest : List ℕ) (fd : S)
        → length b ≤ limit
        → limit < 2 ^ 32
        → st.incoming fd ≡ frame b ++ rest
        → ((recv_frame sock limit fd).0 ≡ some b) × At fd (recv_frame sock limit fd).1 [] rest
    unfolding recv_frame frame
    recv_frame_exact limit b rest fd h c e =
        let head = to_bytes 4 (length b) in
        let fd1 = (recv_all sock 4 fd).1 in
        let (r, a) =
          recv_all_exact fd 4 head (b ++ rest) (length-to_bytes 4 (length b))
            (e ∙ append_assoc head b rest) in
        let len : of_bytes head ≡ length b = of_bytes-to_bytes 4 (length b) (omega (arith, h, c)) in
        let within : ltb limit (length b) ≡ false = ground arith in
        rw (recv_frame, r, len, within)
          (elim (Bool-cases (length b == 0)) [
            | inl z ↦ rw z (
              ap some (sym (none_left b z)),
              record { sent = a.sent; coming = a.coming ∙ ap (λ x. x ++ rest) (none_left b z) },
            )
            | inr z ↦ rw z (
                let (r2, a2) = recv_all_exact fd1 (length b) b rest refl a.coming in
                (
                  r2,
                  record {
                    sent = a2.sent ∙ ap (λ o. o ++ []) (a.sent ∙ append-nil (st.outgoing fd));
                    coming = a2.coming;
                  },
                ))
          ])

    -- At the end of the stream there is no frame.
    pub recv_frame_end :
        (limit : ℕ) (fd : S)
        → st.incoming fd ≡ []
        → ((recv_frame sock limit fd).0 ≡ none) × At fd (recv_frame sock limit fd).1 [] []
    unfolding recv_frame recv_all recv_loop
    recv_frame_end limit fd e =
        let fd1 = (sock.recv fd 4).1 in
        let (b, i) =
          nothing_in (sock.recv fd 4).0 (st.incoming fd1) (sym e ∙ st.recv-incoming fd 4) in
        let test : (length (sock.recv fd 4).0 == 0) ≡ true = ap (λ x. length x == 0) b in
        let closed : recv_all sock 4 fd ≡ (none, fd1) = rw test refl in
        rw (recv_frame, closed)
          (
            refl,
            record {
              sent =
                  ap (λ r. st.outgoing r.1) closed
                  ∙ st.recv-outgoing fd 4
                  ∙ sym (append-nil (st.outgoing fd));
              coming = ap (λ r. st.incoming r.1) closed ∙ i;
            },
          )
