-- ===== src/CanonicalHash.antt =====
-- core/internal/canonicalhash: one versioned SHA-256 preimage from typed fields.
--
-- An `Encoder` is the list of the fields that were appended; the bytes that its hasher has been
-- given are `preimage` of that list. SHA-256 itself (`crypto/sha256`) is a parameter of `sum`.
use stacks.Base.{ℕ, ◌+◌, ◌*◌, ◌/◌, ◌%◌, ◌^◌, Bool, List, [], ◌∷◌, ◌++◌, Text, length, if◌then◌else◌}
use stacks.Timepoint.{Time, normalize, unix_micro}
pub mod Boundaries

-- The methods `String`, `Bytes`, `Uint64`, `Bool` and `Time`, with their arguments.
pub data Field : Type 0 where
  string bytes : Text → Field
  uint64 : ℕ → Field
  bool : Bool → Field
  time : Time → Field

-- `binary.BigEndian.PutUint64`
unfoldable pub put_uint64 : ℕ → Text
put_uint64 value =
    (value / 2 ^ 56 % 256)
    ∷ (value / 2 ^ 48 % 256)
    ∷ (value / 2 ^ 40 % 256)
    ∷ (value / 2 ^ 32 % 256)
    ∷ (value / 2 ^ 24 % 256)
    ∷ (value / 2 ^ 16 % 256)
    ∷ (value / 2 ^ 8 % 256)
    ∷ (value % 256)
    ∷ []

-- The constants from `stringField` to `timeField`.
unfoldable pub kind_of : Field → ℕ
kind_of (string value) = 1
kind_of (bytes value) = 2
kind_of (uint64 value) = 3
kind_of (bool value) = 4
kind_of (time value) = 5

-- The bytes that each method hands to `field`.
unfoldable pub payload : Field → Text
payload (string value) = value
payload (bytes value) = value
payload (uint64 value) = put_uint64 value
payload (bool value) = (if value then 1 else 0) ∷ []
payload (time value) = put_uint64 (unix_micro (normalize value))

-- `field`: the kind, the length and the value.
unfoldable pub write_field : Field → Text
write_field f = kind_of f ∷ put_uint64 (length (payload f)) ++ payload f

unfoldable pub preimage : List Field → Text
preimage [] = []
preimage (f ∷ fs) = write_field f ++ preimage fs

-- `New(version)`, followed by the given fields.
unfoldable pub new : Text → List Field → List Field
new version fields = string version ∷ fields

unfoldable pub sum : (Text → Text) → List Field → Text
sum sha256 fields = sha256 (preimage fields)
