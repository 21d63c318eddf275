-- ===== src/TmqRaw.antt =====
-- driver/common/parser/raw.go: the header, the blocks and the schemas of a raw TMQ message.
-- The memory behind the pointer is a list of bytes, `p.offset` is threaded through the functions,
-- and an int is its bit pattern of 64 bits. `none` is a read outside the memory, or a `make` with
-- a negative length.
pub mod Varint
pub mod Schema
pub mod Runs
use taosadapter.Common.{
  ℕ, zero, suc, ◌+◌, ◌-◌, ◌*◌, ◌/◌, ◌%◌, ◌^◌, ◌⊎◌, inl, inr, Bool, true, false, not, ◌&&◌, ◌||◌,
  List, [], ◌∷◌, Option, none, some, ◌==◌, ltb, leb, if◌then◌else◌, length,
}
use taosadapter.Common.Bytes.{read_le, read_bytes}
use taosadapter.Block.{add_pointer}
use taosadapter.Block.Parse.{◌>>=◌, sign_extend}

pub record TmqRawDataSchema : Type 0 where
  pub col_type : ℕ
  pub flag : ℕ
  pub bytes : ℕ
  pub col_id : ℕ
  pub name : List ℕ

-- `raw_block` is the offset of the block; a message without schemas or names has none here.
pub record TmqBlockInfo : Type 0 where
  pub raw_block : ℕ
  pub precision : ℕ
  pub schema : List TmqRawDataSchema
  pub table_name : List ℕ

pub data ParseError : Type 0 where
  unknown_type : ℕ → ParseError

-- What a parser gives: a value and the next offset.
abbrev pub Parsed {ℓ} : Type ℓ → Type ℓ
Parsed A = Option (A × ℕ)

-- `p.offset += uintptr(count)`
pub skip : ℕ → ℕ → ℕ
skip count off = add_pointer off count

pub parse_uint8 : List ℕ → ℕ → Parsed ℕ
unfolding skip
parse_uint8 b off = read_le 1 b off >>= λ v. some (v, skip 1 off)

pub parse_int8 : List ℕ → ℕ → Parsed ℕ
unfolding skip
parse_int8 b off = read_le 1 b off >>= λ v. some (v, skip 1 off)

unfoldable parse_bool : List ℕ → ℕ → Parsed Bool
unfolding skip
parse_bool b off = read_le 1 b off >>= λ v. some (not (v == 0), skip 1 off)

unfoldable parse_int32 : List ℕ → ℕ → Parsed ℕ
unfolding skip
parse_int32 b off = read_le 4 b off >>= λ v. some (v, skip 4 off)

-- The loop of `parseVariableByteInteger`; every round reads one byte.
pub variable_rounds : ℕ → List ℕ → ℕ → ℕ → ℕ → Parsed ℕ
unfolding parse_uint8
variable_rounds zero b off multiplier value = none
variable_rounds (suc fuel) b off multiplier value = do
  (encoded, off') ← parse_uint8 b off
  let value' = (value + encoded % 128 * multiplier) % 2 ^ 64
  let rest = variable_rounds fuel b off' (multiplier * 128 % 2 ^ 64) value'
  if encoded / 128 % 2 == 0 then some (value', off') else rest

-- As many rounds as there are bytes.
pub parse_variable_byte_integer : List ℕ → ℕ → Parsed ℕ
unfolding variable_rounds
parse_variable_byte_integer b off = variable_rounds (length b) b off 1 0

-- `n >> 1` of an int keeps the sign, and `x ^ -1` is `-1 - x`.
pub zigzag_decode : ℕ → ℕ
zigzag_decode n =
    let half = if ltb n (2 ^ 63) then n / 2 else n / 2 + 2 ^ 63 in
    if n % 2 == 0 then half else 2 ^ 64 - 1 - half

pub parse_zigzag_variable_byte_integer : List ℕ → ℕ → Parsed ℕ
unfolding parse_variable_byte_integer zigzag_decode
parse_zigzag_variable_byte_integer b off =
    parse_variable_byte_integer b off >>= λ (n, off'). some (zigzag_decode n, off')

-- `make([]byte, nameLen-1)`: a length of 0 or a negative one is a panic.
pub parse_name : List ℕ → ℕ → Parsed (List ℕ)
unfolding parse_variable_byte_integer skip
parse_name b off = do
  (name_len, off') ← parse_variable_byte_integer b off
  if name_len == 0
      then none
      else if ltb name_len (2 ^ 63)
      then (read_bytes (name_len - 1) b off' >>= λ name. some (name, skip name_len off'))
      else none

pub parse_schema : List ℕ → ℕ → Parsed TmqRawDataSchema
unfolding parse_uint8 parse_int8 parse_zigzag_variable_byte_integer parse_name
parse_schema b off = do
  (col_type, off1) ← parse_uint8 b off
  (flag, off2) ← parse_int8 b off1
  (bytes, off3) ← parse_zigzag_variable_byte_integer b off2
  (col_id, off4) ← parse_zigzag_variable_byte_integer b off3
  (name, off5) ← parse_name b off4
  some (
    record { col_type = col_type; flag = flag; bytes = bytes; col_id = col_id; name = name },
    off5,
  )

unfoldable parse_schemas : ℕ → List ℕ → ℕ → Parsed (List TmqRawDataSchema)
unfolding parse_schema
parse_schemas zero b off = some ([], off)
parse_schemas (suc n) b off = do
  (schema, off1) ← parse_schema b off
  (rest, off2) ← parse_schemas n b off1
  some (schema ∷ rest, off2)

-- `cols` and the version; a negative `cols` is a panic.
unfoldable parse_block_schema : Bool → List ℕ → ℕ → Parsed (List TmqRawDataSchema)
unfolding parse_schemas parse_zigzag_variable_byte_integer
parse_block_schema false b off = some ([], off)
parse_block_schema true b off = do
  (cols, off1) ← parse_zigzag_variable_byte_integer b off
  (version, off2) ← parse_zigzag_variable_byte_integer b off1
  if ltb cols (2 ^ 63) then parse_schemas cols b off2 else none

unfoldable parse_block_name : Bool → List ℕ → ℕ → Parsed (List ℕ)
unfolding parse_name
parse_block_name false b off = some ([], off)
parse_block_name true b off = parse_name b off

unfoldable parse_block_info : Bool → Bool → List ℕ → ℕ → Parsed TmqBlockInfo
unfolding parse_block_schema parse_block_name skip parse_variable_byte_integer parse_uint8
parse_block_info with_table_name with_schema b off = do
  (block_total_len, off1) ← parse_variable_byte_integer b off
  (precision, off2) ← parse_uint8 b (skip 17 off1)
  (schema, off3) ← parse_block_schema with_schema b (skip (block_total_len + 2 ^ 64 - 18) off2)
  (table_name, off4) ← parse_block_name with_table_name b off3
  some (
    record { raw_block = off2; precision = precision; schema = schema; table_name = table_name },
    off4,
  )

unfoldable block_infos : ℕ → Bool → Bool → List ℕ → ℕ → Parsed (List TmqBlockInfo)
unfolding parse_block_info
block_infos zero with_table_name with_schema b off = some ([], off)
block_infos (suc n) with_table_name with_schema b off = do
  (info, off1) ← parse_block_info with_table_name with_schema b off
  (rest, off2) ← block_infos n with_table_name with_schema b off1
  some (info ∷ rest, off2)

unfoldable parse_block_infos : List ℕ → ℕ → Parsed (List TmqBlockInfo)
unfolding block_infos parse_int32 parse_bool
parse_block_infos b off = do
  (block_num, off1) ← parse_int32 b off
  (with_table_name, off2) ← parse_bool b off1
  (with_schema, off3) ← parse_bool b off2
  if ltb block_num (2 ^ 31) then block_infos block_num with_table_name with_schema b off3 else none

-- `getTypeSkip`; `none` is its error.
unfoldable get_type_skip : ℕ → Option ℕ
get_type_skip t = if t == 1 then some 8 else if t == 2 || t == 3 then some 16 else none

type_skip : ℕ → ℕ → ParseError ⊎ ℕ
unfolding get_type_skip skip
type_skip t off = elim (get_type_skip t) [ none ↦ inl (unknown_type t) | some n ↦ inr (skip n off) ]

-- The second type of the head, behind what the first one skips.
second_skip : List ℕ → ParseError ⊎ ℕ → Option (ParseError ⊎ ℕ)
unfolding parse_int8 type_skip
second_skip b (inl e) = some (inl e)
second_skip b (inr off) = parse_int8 b off >>= λ (t, off'). some (type_skip t off')

-- `skipHead`: an int8 from 100 on states what to skip.
unfoldable skip_head : List ℕ → ℕ → Option (ParseError ⊎ ℕ)
unfolding parse_int8 parse_int32 skip type_skip second_skip
skip_head b off = do
  (v, off1) ← parse_int8 b off
  if leb 100 v && ltb v 128
      then (parse_int32 b off1 >>= λ (n, off2). some (inr (skip (sign_extend n) off2)))
      else second_skip b (type_skip v off1)

block_infos_after : List ℕ → ParseError ⊎ ℕ → Option (ParseError ⊎ List TmqBlockInfo)
unfolding parse_block_infos
block_infos_after b (inl e) = some (inl e)
block_infos_after b (inr off) = parse_block_infos b off >>= λ (infos, off'). some (inr infos)

-- `Parse`
unfoldable parse : List ℕ → Option (ParseError ⊎ List TmqBlockInfo)
unfolding skip_head block_infos_after
parse b = skip_head b 0 >>= block_infos_after b
