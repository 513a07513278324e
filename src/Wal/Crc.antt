-- ===== src/Wal/Crc.antt =====
-- The range of the checksum.
use Prim.Native.Nat.{bit_xor}
use matrixdb.Prelude.{ℕ, zero, suc, ◌<◌, ◌^◌, ◌/◌, List, [], ◌∷◌, arith}
use matrixdb.Prelude.Bits.{bit_xor-lt}
use matrixdb.Wal.{crc_bit, crc_rounds, crc_byte, crc_from, matrix_crc32}

-- All elements of a list are bytes.
abbrev pub AllBytes : List ℕ → Type 0
AllBytes [] = Unit
AllBytes (b ∷ bs) = (b < 256) × AllBytes bs

crc_bit-lt : (crc : ℕ) → crc < 2 ^ 32 → crc_bit crc < 2 ^ 32
unfolding crc_bit
crc_bit-lt crc h = ground (arith, bit_xor-lt 32 (crc / 2) 0xEDB8_8320)

crc_rounds-lt : (k crc : ℕ) → crc < 2 ^ 32 → crc_rounds k crc < 2 ^ 32
unfolding crc_rounds
crc_rounds-lt zero crc h = h
crc_rounds-lt (suc k) crc h = crc_rounds-lt k _ (crc_bit-lt crc h)

crc_byte-lt : (crc b : ℕ) → crc < 2 ^ 32 → b < 256 → crc_byte crc b < 2 ^ 32
unfolding crc_byte
crc_byte-lt crc b h k = crc_rounds-lt 8 (bit_xor crc b) (bit_xor-lt 32 crc b h (omega arith))

crc_from-lt : (crc : ℕ) (bs : List ℕ) → crc < 2 ^ 32 → AllBytes bs → crc_from crc bs < 2 ^ 32
unfolding crc_from
crc_from-lt crc [] h bytes = h
crc_from-lt crc (b ∷ bs) h bytes =
    crc_from-lt (crc_byte crc b) bs (crc_byte-lt crc b h bytes.0) bytes.1

pub matrix_crc32-lt : (bs : List ℕ) → AllBytes bs → matrix_crc32 bs < 2 ^ 32
unfolding matrix_crc32
matrix_crc32-lt bs bytes =
    bit_xor-lt 32 _ 0xFFFF_FFFF (crc_from-lt 0xFFFF_FFFF bs (omega arith) bytes) (omega arith)
