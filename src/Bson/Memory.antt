-- ===== src/Bson/Memory.antt =====
-- The memory that src/utils/bson.c reads and writes, as a list of bytes from the start of the
-- document on, and what its functions return.
use dlite.Base.{
  ℕ, ◌+◌, ◌*◌, ◌/◌, ◌%◌, true, false, List, [], ◌∷◌, ◌++◌, Text, leb, ◌==◌, if◌then◌else◌, length,
  take, drop,
}

-- The negative return codes.
pub data BsonError : Type 0 where
  type_error : BsonError
  value_error : BsonError
  key_error : BsonError
  parse_error : BsonError
  inconsistent_data_error : BsonError

-- A call returns a value or an error code, or it stops at an assertion or leaves its memory.
pub data Bson {ℓ} (A : Type ℓ) : Type ℓ where
  value : A → Bson A
  error : BsonError → Bson A
  stop : Bson A

infixl 5 ◌>>=◌
abbrev pub ◌>>=◌ {ℓ κ} : {A : Type ℓ} {B : Type κ} → Bson A → (A → Bson B) → Bson B
value a >>= f = f a
error e >>= f = error e
stop >>= f = stop

-- `memcpy(doc + n, bytes, length)`
unfoldable pub write : List ℕ → ℕ → List ℕ → Bson (List ℕ)
write mem n bytes =
    if leb (n + length bytes) (length mem)
    then value (take n mem ++ (bytes ++ drop (n + length bytes) mem))
    else stop

-- The bytes of an `int32_t` in little-endian order.
unfoldable pub le32 : ℕ → List ℕ
le32 v = v % 256 ∷ v / 256 % 256 ∷ v / 65536 % 256 ∷ v / 16777216 % 256 ∷ []

unfoldable pub byte_at : List ℕ → Bson ℕ
byte_at [] = stop
byte_at (b ∷ mem) = value b

-- `le32toh` of the four bytes here, without a sign.
unfoldable pub le32toh : List ℕ → Bson ℕ
le32toh (a ∷ b ∷ c ∷ d ∷ mem) = value (a + b * 256 + c * 65536 + d * 16777216)
le32toh _ = stop

-- The C string that starts here.
unfoldable pub string_at : List ℕ → Bson Text
string_at [] = stop
string_at (c ∷ mem) = elim (c == 0) [
  | true ↦ value []
  | false ↦ elim (string_at mem) [ value s ↦ value (c ∷ s) | error e ↦ error e | stop ↦ stop ]
]

-- `n` bytes from here on.
unfoldable pub bytes_at : ℕ → List ℕ → Bson (List ℕ)
bytes_at n mem = if leb n (length mem) then value (take n mem) else stop
