-- ===== src/Revision/Fields.antt =====
-- The fields of a revision and `Revision::fieldMatch`.
use map_api.Prelude.{
  ℕ, ◌*◌, ◌%◌, ◌^◌, Bool, true, false, ◌&&◌, ◌||◌, List, [], ◌∷◌, ltb, ◌==◌, if◌then◌else◌,
}

-- `proto::Type`
pub data FieldType : Type 0 where
  int32 int64 uint64 double string blob hash128 uint32 : FieldType

-- The numbers of the enumeration in core.proto.
type_number : FieldType → ℕ
type_number int32 = 1
type_number int64 = 2
type_number uint64 = 3
type_number double = 4
type_number string = 5
type_number blob = 6
type_number hash128 = 7
type_number uint32 = 8

-- `proto::TableField`: a type and one value for each kind of type. A value that is not set reads
-- as zero or empty.
pub record TableField : Type 0 where
  pub field_type : FieldType
  pub blob_value : List ℕ
  pub double_value : ℕ
  pub int_value : ℕ
  pub long_value : ℕ
  pub unsigned_long_value : ℕ
  pub string_value : List ℕ
  pub unsigned_int_value : ℕ

unfoldable pub same_type : TableField → TableField → Bool
unfolding type_number
same_type a b = type_number a.field_type == type_number b.field_type

bytes_equal : List ℕ → List ℕ → Bool
bytes_equal [] [] = true
bytes_equal (a ∷ s) (b ∷ t) = a == b && bytes_equal s t
bytes_equal _ _ = false

-- A double is not a number if its exponent is all ones and its fraction is not zero.
unfoldable pub is_nan : ℕ → Bool
is_nan bits = ltb (0x7ff * 2 ^ 52) (bits % 2 ^ 63)

-- `==` on doubles: a value that is not a number equals nothing, and the two zeros are equal.
unfoldable pub double_equal : ℕ → ℕ → Bool
unfolding is_nan
double_equal a b =
    if is_nan a || is_nan b
    then false
    else if a % 2 ^ 63 == 0 && b % 2 ^ 63 == 0
    then true
    else a == b

-- `Revision::fieldMatch`, at two fields: the type of the first decides.
unfoldable pub field_match : TableField → TableField → Bool
unfolding bytes_equal double_equal
field_match a b = elim a.field_type [
  | blob ↦ bytes_equal a.blob_value b.blob_value
  | double ↦ double_equal a.double_value b.double_value
  | hash128 ↦ bytes_equal a.string_value b.string_value
  | int32 ↦ a.int_value == b.int_value
  | uint32 ↦ a.unsigned_int_value == b.unsigned_int_value
  | int64 ↦ a.long_value == b.long_value
  | uint64 ↦ a.unsigned_long_value == b.unsigned_long_value
  | string ↦ bytes_equal a.string_value b.string_value
]
