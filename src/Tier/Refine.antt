-- ===== src/Tier/Refine.antt =====
-- The columns of tiered_column.hpp against the promise that the engine relies on: whatever the tier, a
-- column is its bytes.
use matrixdb.Prelude.{
  ℕ, zero, suc, ◌≡◌, inl, inr, refl, ap, sym, ◌∙◌, subst, Option, none, some, List, [], ◌∷◌, length,
  ◌==◌, ==_iff, length-take, take, arith, Option-cases, Bool-cases,
}
use matrixdb.Prelude.Maps.{==_refl}
use matrixdb.Tier
use matrixdb.Tier.{MemorySpace, host, device, cold, unified, same_tier, Column, staged}
use matrixdb.Tier.Columns
use matrixdb.Tier.Columns.{
  Disk, Truthful, Reliable, TieredColumn, read_cold, write_cold, free_current, push, checksum,
  byte_sum, append_bytes,
}

-- the resource that a tier holds
unfoldable pub Stored : MemorySpace → List ℕ → Option (List ℕ) → List ℕ → Type 0
Stored host buffer file bytes = (buffer ≡ bytes) × (file ≡ none)
Stored cold buffer file bytes = (buffer ≡ []) × (file ≡ some bytes)
Stored device buffer file bytes = ⊥
Stored unified buffer file bytes = ⊥

-- The column in memory or on disk stands for the column that the engine sees.
unfoldable pub Shows : TieredColumn → Column → Type 0
Shows c col =
    (c.size ≡ length col.bytes) × (c.tier ≡ col.tier) × Stored c.tier c.host_ c.file col.bytes

take-length : (xs : List ℕ) → take (length xs) xs ≡ xs
take-length [] = refl
take-length (x ∷ xs) = ap (λ r. x ∷ r) (take-length xs)

take_whole : (n : ℕ) (xs : List ℕ) → length (take n xs) ≡ length xs → take n xs ≡ xs
take_whole n [] h = ground arith
take_whole zero (x ∷ xs) h = absurd (omega arith)
take_whole (suc n) (x ∷ xs) h = ap (λ r. x ∷ r) (take_whole n xs (omega arith))

take-take_whole :
    (n m : ℕ) (xs : List ℕ) → length (take n (take m xs)) ≡ length xs → take n (take m xs) ≡ xs
take-take_whole n m [] h = ground arith
take-take_whole zero m (x ∷ xs) h = absurd (omega arith)
take-take_whole (suc n) zero (x ∷ xs) h = absurd (omega arith)
take-take_whole (suc n) (suc m) (x ∷ xs) h = ap (λ r. x ∷ r) (take-take_whole n m xs (omega arith))

module _ (disk : Disk) where
  write_cold-Reliable : Reliable disk → (b : List ℕ) → write_cold disk b ≡ some b
  unfolding write_cold
  write_cold-Reliable r b = rw (r.written_all b, ==_refl (length b)) refl

  read_cold-Reliable :
      Reliable disk
      → (c : TieredColumn) (bytes : List ℕ) → c.file ≡ some bytes
      → c.size ≡ length bytes
      → read_cold disk c ≡ some bytes
  unfolding read_cold
  read_cold-Reliable r c bytes f s =
      rw (f, r.fread_all bytes, s, take-length bytes, ==_refl (length bytes)) refl

-- Both fail, or both give a column and the one stands for the other.
unfoldable pub Follows : Option TieredColumn → Option Column → Type 0
Follows none none = Unit
Follows none (some col) = ⊥
Follows (some c) none = ⊥
Follows (some c) (some col) = Shows c col

module _ (disk : Disk) where
  read_back :
      Reliable disk
      → (id : ℕ) (bytes buffer : List ℕ) (file : Option (List ℕ)) → Stored cold buffer file bytes
      → read_cold disk
          (record { id = id; size = length bytes; tier = cold; host_ = buffer; file = file })
        ≡ some bytes
  unfolding Stored
  read_back r id bytes buffer file h =
      read_cold-Reliable disk r
        (record { id = id; size = length bytes; tier = cold; host_ = buffer; file = file }) bytes
        h.1 refl

  moved_Shows :
      Reliable disk
      → (d t : MemorySpace) (id : ℕ) (bytes buffer : List ℕ) (file : Option (List ℕ))
      → Stored t buffer file bytes
      → Follows
          (Columns.migrate_to disk d
            (record { id = id; size = length bytes; tier = t; host_ = buffer; file = file }))
          (Tier.migrate_to d (record { tier = t; bytes = bytes }))
  unfolding Stored Follows Shows Columns.migrate_to Tier.migrate_to Columns.read_to_host
      Tier.read_to_host staged push free_current
  moved_Shows r host host id bytes buffer file h = (refl, refl, h)
  moved_Shows r cold host id bytes buffer file h =
      rw (write_cold-Reliable disk r buffer, h.0) (refl, refl, (refl, refl))
  moved_Shows r device host id bytes buffer file h = tt
  moved_Shows r unified host id bytes buffer file h = tt
  moved_Shows r host cold id bytes buffer file h =
      rw (read_back r id bytes buffer file h) (refl, refl, (refl, refl))
  moved_Shows r cold cold id bytes buffer file h = (refl, refl, h)
  moved_Shows r device cold id bytes buffer file h = rw (read_back r id bytes buffer file h) tt
  moved_Shows r unified cold id bytes buffer file h = rw (read_back r id bytes buffer file h) tt
  moved_Shows r d device id bytes buffer file h = absurd h
  moved_Shows r d unified id bytes buffer file h = absurd h

  read_shown :
      Reliable disk
      → (t : MemorySpace) (id size : ℕ) (bytes buffer : List ℕ) (file : Option (List ℕ))
      → size ≡ length bytes
      → Stored t buffer file bytes
      → Columns.read_to_host disk
          (record { id = id; size = size; tier = t; host_ = buffer; file = file })
        ≡ some bytes
  unfolding Stored Columns.read_to_host
  read_shown r host id size bytes buffer file e h = ap some h.0
  read_shown r cold id size bytes buffer file e h =
      read_cold-Reliable disk r
        (record { id = id; size = size; tier = cold; host_ = buffer; file = file }) bytes h.1 e
  read_shown r device id size bytes buffer file e h = absurd h
  read_shown r unified id size bytes buffer file e h = absurd h

  took_all :
      (b : List ℕ) (n : ℕ) (g f : List ℕ)
      → disk.written b ≡ some (n, g)
      → write_cold disk b ≡ some f
      → (n ≡ length b) × (g ≡ f)
  unfolding write_cold
  took_all b n g f w e = elim (Bool-cases (n == length b)) [
    | inl y ↦ ((==_iff n (length b)).0 y, ground arith)
    | inr no' ↦ absurd (ground arith)
  ]

  write_cold-Truthful :
      Truthful disk → (b : List ℕ) {f : List ℕ} → write_cold disk b ≡ some f → f ≡ b
  unfolding write_cold
  write_cold-Truthful r b {f = f} e = elim (Option-cases (disk.written b)) [
    | inl n ↦ absurd (ground arith)
    | inr ((n, g), w) ↦
        let (full, same) = took_all b n g f w e in
        sym same ∙ r.written-prefix b g n w ∙ take_whole n b (omega (arith, full, length-take n b))
  ]

  read_cold-Truthful :
      Truthful disk
      → (c : TieredColumn) (bytes : List ℕ) {b : List ℕ} → c.file ≡ some bytes
      → c.size ≡ length bytes
      → read_cold disk c ≡ some b
      → b ≡ bytes
  unfolding read_cold
  read_cold-Truthful r c bytes {b = b} e s h = elim (Option-cases (disk.fread bytes)) [
    | inl n ↦ absurd (ground arith)
    | inr (g, w) ↦
        let (n, p) = r.fread-prefix bytes g w in
        grind (arith, h, e, s, w, p, take-take_whole c.size n bytes)
  ]

  -- On a disk that has room and whose files can be read: a column that stands for a column of the engine's
  -- view follows it through a migration to any tier: both abort, or both give a column, and the one still
  -- stands for the other, with the same bytes in the new tier.
  pub migrate_to-refines :
      Reliable disk
      → (c : TieredColumn) (col : Column) → Shows c col
      → (d : MemorySpace) → Follows (Columns.migrate_to disk d c) (Tier.migrate_to d col)
  unfolding Shows
  migrate_to-refines r c col h d =
      subst (λ x. Follows (Columns.migrate_to disk d x) (Tier.migrate_to d col))
        (sym (
          ap (λ n. record { id = c.id; size = n; tier = c.tier; host_ = c.host_; file = c.file })
            h.0))
        (subst
          (λ t.
            Follows
              (Columns.migrate_to disk d (record {
                id = c.id;
                size = length col.bytes;
                tier = c.tier;
                host_ = c.host_;
                file = c.file;
              }))
              (Tier.migrate_to d (record { tier = t; bytes = col.bytes })))
          h.1 (moved_Shows r d c.tier c.id col.bytes c.host_ c.file h.2))

  moved-Truthful :
      Truthful disk
      → (d t : MemorySpace) (id : ℕ) (bytes buffer : List ℕ) (file : Option (List ℕ))
      → Stored t buffer file bytes
      → {moved : TieredColumn}
      → Columns.migrate_to disk d
          (record { id = id; size = length bytes; tier = t; host_ = buffer; file = file })
        ≡ some moved
      → Shows moved (record { tier = d; bytes = bytes })
  unfolding Stored Shows Columns.migrate_to Columns.read_to_host push free_current
  moved-Truthful r host host id bytes buffer file h e = ground arith
  moved-Truthful r cold host id bytes buffer file h {moved = moved} e =
      elim (Option-cases (write_cold disk buffer)) [
        | inl n ↦ absurd (ground arith)
        | inr (f, w) ↦ ground (arith, write_cold-Truthful r buffer w)
      ]
  moved-Truthful r device host id bytes buffer file h e = absurd (ground arith)
  moved-Truthful r unified host id bytes buffer file h e = absurd (ground arith)
  moved-Truthful r host cold id bytes buffer file h e =
      elim (Option-cases (
        read_cold disk
          (record { id = id; size = length bytes; tier = cold; host_ = buffer; file = file }))) [
            | inl n ↦ absurd (ground arith)
            | inr (b, w) ↦ ground (
              arith,
              read_cold-Truthful r
                  (record {
                    id = id;
                    size = length bytes;
                    tier = cold;
                    host_ = buffer;
                    file = file;
                  })
                  bytes h.1 refl w,
            )
          ]
  moved-Truthful r cold cold id bytes buffer file h e = ground arith
  moved-Truthful r device cold id bytes buffer file h e =
      elim (Option-cases (
        read_cold disk
          (record { id = id; size = length bytes; tier = cold; host_ = buffer; file = file }))) [
            | inl n ↦ absurd (ground arith)
            | inr (b, w) ↦ absurd (ground arith)
          ]
  moved-Truthful r unified cold id bytes buffer file h e =
      elim (Option-cases (
        read_cold disk
          (record { id = id; size = length bytes; tier = cold; host_ = buffer; file = file }))) [
            | inl n ↦ absurd (ground arith)
            | inr (b, w) ↦ absurd (ground arith)
          ]
  moved-Truthful r d device id bytes buffer file h e = absurd h
  moved-Truthful r d unified id bytes buffer file h e = absurd h

  -- On a disk that makes up no bytes and on which a closed file holds the bytes that fwrite took, whatever else fails: if
  -- migrate_to of a column that stands for some bytes returns, the moved column stands for the same bytes in the tier asked for.
  pub migrate_to-Truthful :
      Truthful disk
      → (c : TieredColumn) (col : Column) → Shows c col
      → (d : MemorySpace) {moved : TieredColumn} → Columns.migrate_to disk d c ≡ some moved
      → Shows moved (record { tier = d; bytes = col.bytes })
  unfolding Shows
  migrate_to-Truthful r c col h d {moved = moved} e =
      moved-Truthful r d c.tier c.id col.bytes c.host_ c.file h.2 (
        subst
          (λ n.
            Columns.migrate_to disk d
              (record { id = c.id; size = n; tier = c.tier; host_ = c.host_; file = c.file })
            ≡ some moved)
          h.0 e)

  -- On such a disk the checksum of a column that stands for some bytes is that of the bytes, whatever
  -- the tier.
  pub checksum_any_tier :
      Reliable disk
      → (c : TieredColumn) (col : Column) → Shows c col
      → checksum disk c ≡ some (byte_sum col.bytes 0)
  unfolding Shows checksum
  checksum_any_tier r c col h =
      rw (read_shown r c.tier c.id c.size col.bytes c.host_ c.file h.0 h.2) refl
