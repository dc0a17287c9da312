-- ===== src/BitReader.antt =====
-- packages/vinyl-util/src/util/buffer/BitReader.ts: big-endian bit fields of an array of bytes. The
-- reader is its data and its position, which every operation gets and leaves.
pub mod Fields
pub mod Positions
pub mod Packing
pub mod Outcomes
pub mod Bytes
use vinyl.Common.{
  ℕ, zero, suc, ◌+◌, ◌-◌, ◌*◌, ◌/◌, ◌%◌, ◌^◌, Bool, true, false, Option, none, some, List, [], ◌∷◌,
  ◌++◌, ltb, ◌==◌, if◌then◌else◌, length, get_elem?,
}

-- Errors that readers throw: a BufferError, errors of the format that is read, and, for the model
-- only, a loop that has used up its rounds.
pub data Failure : Type 0 where
  buffer_error bad_table_id truncated not_sidx unsupported_version client_unsupported hierarchical
        out_of_rounds :
      Failure

-- A value and the position after it, or an error.
pub data Outcome {ℓ} (A : Type ℓ) : Type ℓ where
  done : A → ℕ → Outcome A
  failed : Failure → Outcome A

-- A reader of the bytes, from a position.
abbrev pub Reader : Type 0 → Type 0
Reader A = List ℕ → ℕ → Outcome A

abbrev pub continue : {A B : Type 0} → Outcome A → (A → Reader B) → List ℕ → Outcome B
continue (done a p) f bytes = f a bytes p
continue (failed e) f bytes = failed e

infixl 5 ◌>>=◌ ◌>>◌
abbrev pub ◌>>=◌ : {A B : Type 0} → Reader A → (A → Reader B) → Reader B
◌>>=◌ m f bytes pos = continue (m bytes pos) f bytes

abbrev pub ◌>>◌ : {B : Type 0} → Reader (Unit {0}) → Reader B → Reader B
m >> k = m >>= λ _. k

abbrev pub return : {A : Type 0} → A → Reader A
return a bytes pos = done a pos

abbrev pub throw : {A : Type 0} → Failure → Reader A
throw e bytes pos = failed e

-- What a read outside the array counts as: the bit operations take `undefined` for 0.
abbrev pub byte_at : List ℕ → ℕ → ℕ
byte_at bytes i = elim (get_elem? bytes i) [ none ↦ 0 | some b ↦ b ]

abbrev pub bit_at : List ℕ → ℕ → ℕ
bit_at bytes pos = byte_at bytes (pos / 8) / 2 ^ (7 - pos % 8) % 2

-- `bytePosition`: the position in bytes, rounded up.
abbrev pub byte_position : ℕ → ℕ
byte_position pos = (pos + 7) / 8

abbrev pub tell : Reader ℕ
tell bytes pos = done (byte_position pos) pos

abbrev pub seek : ℕ → Reader (Unit {0})
seek target bytes pos = done tt (target * 8)

abbrev pub skip : ℕ → Reader (Unit {0})
skip bits bytes pos = done tt (pos + bits)

-- The loop of `readBits`: the value, and the position after it.
pub read_loop : ℕ → ℕ → List ℕ → ℕ → ℕ × ℕ
read_loop zero value bytes pos = (value, pos)
read_loop (suc count) value bytes pos =
    read_loop count (value * 2 + bit_at bytes pos) bytes (suc pos)

-- `readBits`; `remaining` is negative behind the end, so the test is on the sum.
unfoldable pub read_bits : ℕ → Reader ℕ
unfolding read_loop
read_bits count bytes pos =
    let (value, after) = read_loop count 0 bytes pos in
    if ltb (length bytes * 8) (pos + count) then failed buffer_error else done value after

-- `readFlag`
unfoldable pub read_flag : Reader Bool
unfolding read_bits
read_flag = do bit ← read_bits 1; return (bit == 1)

-- `readBytes`
unfoldable pub read_bytes : ℕ → Reader (List ℕ)
unfolding read_bits
read_bytes zero = return []
read_bytes (suc count) = do byte ← read_bits 8; rest ← read_bytes count; return (byte ∷ rest)
