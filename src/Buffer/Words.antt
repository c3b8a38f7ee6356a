-- ===== src/Buffer/Words.antt =====
-- encoding/binary's BigEndian on 16 and 32 bits. A signed integer is its bit pattern.
use psql_wire.Base.{Bytes, [], arith, length, refl, ℕ, ◌%◌, ◌*◌, ◌++◌, ◌+◌, ◌/◌, ◌∷◌, ◌≡◌}

-- `PutUint16`
unfoldable pub put_uint16 : ℕ → Bytes
put_uint16 n = n / 256 % 256 ∷ n % 256 ∷ []

-- `PutUint32`
unfoldable pub put_uint32 : ℕ → Bytes
put_uint32 n = n / 16777216 % 256 ∷ n / 65536 % 256 ∷ n / 256 % 256 ∷ n % 256 ∷ []

-- `Uint16` of the first two bytes; the callers have checked that they are there.
unfoldable pub uint16 : Bytes → ℕ
uint16 (a ∷ b ∷ _) = a * 256 + b
uint16 _ = 0

-- `Uint32` of the first four bytes.
unfoldable pub uint32 : Bytes → ℕ
uint32 (a ∷ b ∷ c ∷ d ∷ _) = a * 16777216 + b * 65536 + c * 256 + d
uint32 _ = 0

pub length-put_uint16 : (n : ℕ) → length (put_uint16 n) ≡ 2
unfolding put_uint16
length-put_uint16 n = refl

pub length-put_uint32 : (n : ℕ) → length (put_uint32 n) ≡ 4
unfolding put_uint32
length-put_uint32 n = refl

pub uint16-put_uint16 : (n : ℕ) (rest : Bytes) → uint16 (put_uint16 n ++ rest) ≡ n % 65536
unfolding uint16 put_uint16
uint16-put_uint16 n rest = omega arith

pub uint32-put_uint32 : (n : ℕ) (rest : Bytes) → uint32 (put_uint32 n ++ rest) ≡ n % 4294967296
unfolding uint32 put_uint32
uint32-put_uint32 n rest = omega arith
