-- ===== src/Attestation/Statement.antt =====
-- codec/codec.go and attestation/internal/attstmt: decoded attestation statements and the fields
-- that the formats read from them. Copies are the values.
use webauthn.Prelude.{
  ◌≡◌, arith, ℕ, ◌-◌, ◌^◌, Option, none, some, List, [], ◌∷◌, Bytes, ascii, is_empty, length, ltb,
  if◌then◌else◌, bytes_eq, contains, String,
}
use webauthn.Prelude.Int.{ℤ, pos}
use webauthn.Errors.{Error, Result, ok, err, ◌>>=◌, ◌>>◌, refuse_if, wrapped, annotate_about}
use webauthn.Protocol.Types.{CoseAlgorithm, validate_algorithm}

-- A value of type `any`, by its dynamic type; `any_other` names a type that no format reads. A
-- statement is nil or a map, in an order of its iteration and with distinct keys.
mutual
  pub data AnyValue : Type 0 where
    any_cose_algorithm : ℤ → AnyValue
    any_int : ℤ → AnyValue
    any_int8 : ℤ → AnyValue
    any_int16 : ℤ → AnyValue
    any_int32 : ℤ → AnyValue
    any_int64 : ℤ → AnyValue
    any_uint : ℕ → AnyValue
    any_uint8 : ℕ → AnyValue
    any_uint16 : ℕ → AnyValue
    any_uint32 : ℕ → AnyValue
    any_uint64 : ℕ → AnyValue
    any_bytes : Bytes → AnyValue
    any_string : Bytes → AnyValue
    any_byte_slices : List Bytes → AnyValue
    any_slice : AnyValues → AnyValue
    any_sub_statements : SubStatements → AnyValue
    any_nil : AnyValue
    any_other : Bytes → AnyValue

  pub data AnyValues : Type 0 where
    no_values : AnyValues
    value : AnyValue → AnyValues → AnyValues

  -- `codec.CompoundSubStatement`: the format and the statement.
  pub data SubStatements : Type 0 where
    no_sub_statements : SubStatements
    sub_statement : Bytes → Statement → SubStatements → SubStatements

  -- `codec.AttestationStatement`.
  pub data Statement : Type 0 where
    nil_statement : Statement
    statement_of : Entries → Statement

  pub data Entries : Type 0 where
    no_entries : Entries
    entry : Bytes → AnyValue → Entries → Entries

abbrev pub entries : Statement → Entries
entries nil_statement = no_entries
entries (statement_of es) = es

unfoldable pub entry_keys : Entries → List Bytes
entry_keys no_entries = []
entry_keys (entry k v es) = k ∷ entry_keys es

-- `len(statement)`.
abbrev pub statement_length : Statement → ℕ
statement_length s = length (entry_keys (entries s))

unfoldable pub entry_at : Bytes → Entries → Option AnyValue
entry_at k no_entries = none
entry_at k (entry j v es) = if bytes_eq j k then some v else entry_at k es

-- `statement[key]`, which is a nil `any` where the key is missing.
abbrev or_nil : Option AnyValue → AnyValue
or_nil none = any_nil
or_nil (some v) = v

abbrev pub field : Statement → Bytes → AnyValue
field s k = or_nil (entry_at k (entries s))

-- The loop that refuses keys beside the allowed ones.
unfoldable pub only_keys : Error → List Bytes → List Bytes → Result (Unit {0})
only_keys invalid allowed [] = ok tt
only_keys invalid allowed (k ∷ ks) =
    let rest = only_keys invalid allowed ks in
    if contains allowed k then rest else err (annotate_about invalid "unexpected field" k)

-- `%T` of a value.
unfoldable pub type_name : AnyValue → Bytes
type_name (any_cose_algorithm z) = ascii "protocol.COSEAlgorithmIdentifier"
type_name (any_int z) = ascii "int"
type_name (any_int8 z) = ascii "int8"
type_name (any_int16 z) = ascii "int16"
type_name (any_int32 z) = ascii "int32"
type_name (any_int64 z) = ascii "int64"
type_name (any_uint n) = ascii "uint"
type_name (any_uint8 n) = ascii "uint8"
type_name (any_uint16 n) = ascii "uint16"
type_name (any_uint32 n) = ascii "uint32"
type_name (any_uint64 n) = ascii "uint64"
type_name (any_bytes b) = ascii "[]uint8"
type_name (any_string s) = ascii "string"
type_name (any_byte_slices bs) = ascii "[][]uint8"
type_name (any_slice vs) = ascii "[]interface {}"
type_name (any_sub_statements ss) = ascii "[]codec.CompoundSubStatement"
type_name any_nil = ascii "<nil>"
type_name (any_other name) = name

abbrev has_type : Error → String → AnyValue → Error
has_type invalid what v = annotate_about invalid what (type_name v)

-- `protocol.COSEAlgorithmIdentifier(typed)` is an int64; a uint64 above its range is refused.
abbrev uint_algorithm : Error → ℕ → Result CoseAlgorithm
uint_algorithm invalid n = if ltb (2 ^ 63 - 1) n then err invalid else ok (pos n)

abbrev algorithm_of : Error → AnyValue → Result CoseAlgorithm
algorithm_of invalid (any_cose_algorithm z) = ok z
algorithm_of invalid (any_int z) = ok z
algorithm_of invalid (any_int8 z) = ok z
algorithm_of invalid (any_int16 z) = ok z
algorithm_of invalid (any_int32 z) = ok z
algorithm_of invalid (any_int64 z) = ok z
algorithm_of invalid (any_uint n) = uint_algorithm invalid n
algorithm_of invalid (any_uint8 n) = ok (pos n)
algorithm_of invalid (any_uint16 n) = ok (pos n)
algorithm_of invalid (any_uint32 n) = ok (pos n)
algorithm_of invalid (any_uint64 n) = uint_algorithm invalid n
algorithm_of invalid v = err (has_type invalid "alg field has type" v)

unfoldable pub algorithm_field : AnyValue → Error → Result CoseAlgorithm
algorithm_field v invalid = do
  a ← algorithm_of invalid v
  wrapped invalid (validate_algorithm a)
  ok a

unfoldable pub bytes_field : AnyValue → Error → Result Bytes
bytes_field (any_bytes b) invalid = do
  refuse_if (is_empty b) (has_type invalid "bytes field has type" (any_bytes b))
  ok b
bytes_field v invalid = err (has_type invalid "bytes field has type" v)

unfoldable pub string_field : AnyValue → Error → Result Bytes
string_field (any_string s) invalid = do
  refuse_if (is_empty s) (has_type invalid "string field has type" (any_string s))
  ok s
string_field v invalid = err (has_type invalid "string field has type" v)

-- The loop of `cloneByteSlices`.
unfoldable pub non_empty_slices : Error → List Bytes → Result (List Bytes)
non_empty_slices invalid [] = ok []
non_empty_slices invalid (b ∷ bs) = do
  refuse_if (is_empty b) invalid
  rest ← non_empty_slices invalid bs
  ok (b ∷ rest)

unfoldable pub clone_byte_slices : List Bytes → Error → Result (List Bytes)
clone_byte_slices values invalid = do
  refuse_if (is_empty values) invalid
  non_empty_slices invalid values

-- The loop over a `[]any`.
unfoldable pub x5c_entries : Error → AnyValues → Result (List Bytes)
x5c_entries invalid no_values = ok []
x5c_entries invalid (value (any_bytes b) vs) = do
  refuse_if (is_empty b) (has_type invalid "x5c entry has type" (any_bytes b))
  rest ← x5c_entries invalid vs
  ok (b ∷ rest)
x5c_entries invalid (value v vs) = err (has_type invalid "x5c entry has type" v)

unfoldable pub x5c_field : AnyValue → Error → Result (List Bytes)
x5c_field (any_byte_slices bs) invalid = clone_byte_slices bs invalid
x5c_field (any_slice vs) invalid = do
  out ← x5c_entries invalid vs
  refuse_if (is_empty out) invalid
  ok out
x5c_field v invalid = err (has_type invalid "x5c field has type" v)

abbrev only_one : Error → List Bytes → Result Bytes
only_one invalid (b ∷ []) = ok b
only_one invalid _ = err invalid

unfoldable pub single_x5c_field : AnyValue → Error → Result Bytes
single_x5c_field v invalid = do x5c ← x5c_field v invalid; only_one invalid x5c

-- A bytes field that is read is the byte string that the statement holds.
pub bytes_field-any_bytes :
    (v : AnyValue) (e : Error) {b : Bytes} → bytes_field v e ≡ ok b → v ≡ any_bytes b
unfolding bytes_field
bytes_field-any_bytes (any_bytes b) e h = ground (arith, h)
bytes_field-any_bytes _ e h = cc

-- A string field that is read is the string that the statement holds.
pub string_field-any_string :
    (v : AnyValue) (e : Error) {b : Bytes} → string_field v e ≡ ok b → v ≡ any_string b
unfolding string_field
string_field-any_string (any_string b) e h = ground (arith, h)
string_field-any_string _ e h = cc
