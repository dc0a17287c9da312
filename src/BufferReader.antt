-- ===== src/BufferReader.antt =====
-- packages/vinyl-util/src/util/buffer/BufferReader.ts: unsigned numbers and slices of an array of
-- bytes, read from a position in bytes. A DataView reads big-endian numbers.
pub mod Takes
use vinyl.Common.{ℕ, zero, suc, ◌+◌, ◌*◌, List, [], ◌∷◌, ltb, if◌then◌else◌, length, take, drop}
use vinyl.BitReader.{Reader, done, failed, buffer_error, byte_at}

-- The number in that many bytes.
abbrev pub uint_at : ℕ → List ℕ → ℕ → ℕ
uint_at zero bytes pos = 0
uint_at (suc count) bytes pos = uint_at count bytes pos * 256 + byte_at bytes (pos + count)

-- `assertRemaining`, and the move behind what is read.
abbrev pub advance : {A : Type 0} → ℕ → (List ℕ → ℕ → A) → Reader A
advance count value bytes pos =
    if ltb (length bytes) (pos + count)
    then failed buffer_error
    else done (value bytes pos) (pos + count)

-- `skip`
unfoldable pub skip_bytes : ℕ → Reader (Unit {0})
skip_bytes count = advance count (λ bytes pos. tt)

-- `readUint8`, `readUint16`, `readUint32` and `readUint64`, by the number of bytes.
unfoldable pub read_uint : ℕ → Reader ℕ
read_uint count = advance count (uint_at count)

-- `readBytes`
unfoldable pub read_slice : ℕ → Reader (List ℕ)
read_slice count = advance count (λ bytes pos. take count (drop pos bytes))
