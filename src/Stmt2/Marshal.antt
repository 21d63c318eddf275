-- ===== src/Stmt2/Marshal.antt =====
-- `MarshalStmt2Binary` of driver/common/stmt/stmt2.go, with `TaosStmt2BindData` of field.go: the
-- values of all tables in one buffer. An offset or a count is put as a uint32.
pub mod Layout
pub mod Expected
pub mod Tables
pub mod Gathered
pub mod Whole
use taosadapter.Common.{
  ℕ, zero, suc, ◌+◌, ◌*◌, ◌^◌, Bool, true, false, not, ◌&&◌, ◌||◌, List, [], ◌∷◌, ◌++◌, Option,
  none, some, ◌==◌, ltb, if◌then◌else◌, length, replicate,
}
use taosadapter.Common.Bytes.{le_bytes}
use taosadapter.Common.Bytes.Puts.{put_bytes}
use taosadapter.Stmt2.{
  Value, Error, Result, ok, err, panic, empty_data, tag_count_not_match, col_count_not_match,
  no_data, table_name_too_long, query_tag_types, query_col_types, query_one_data, query_table_name,
  query_tag, query_no_col, query_one_row, ◌>>=◌, generate_bind_col_data, generate_bind_query_data,
}

pub record BindData : Type 0 where
  pub table_name : List ℕ
  pub tags : List Value
  pub cols : List (List Value)

pub record Field : Type 0 where
  pub field_type : ℕ
  pub precision : ℕ
  pub bind_type : ℕ

-- The fields of a kind: `TAOS_FIELD_COL` is 1, `TAOS_FIELD_TAG` is 2.
abbrev pub fields_of : ℕ → List Field → List Field
fields_of kind [] = []
fields_of kind (f ∷ fields) =
    let rest = fields_of kind fields in if f.bind_type == kind then f ∷ rest else rest

abbrev pub is_empty {ℓ} : {A : Type ℓ} → List A → Bool
is_empty [] = true
is_empty (a ∷ xs) = false

-- The checks of an insert; the result says that some table has a name.
pub check_insert : ℕ → ℕ → List BindData → Result Bool
check_insert tag_count col_count [] = ok false
check_insert tag_count col_count (d ∷ rest) =
    if not (length d.tags == tag_count)
    then err tag_count_not_match
    else if not (length d.cols == col_count)
    then err col_count_not_match
    else (check_insert tag_count col_count rest >>= λ named.
        ok (not (is_empty d.table_name) || named))

abbrev pub one_row_each : List (List Value) → Result ℕ
one_row_each [] = ok 0
one_row_each (col ∷ cols) =
    if length col == 1 then (one_row_each cols >>= λ n. ok (suc n)) else err query_one_row

-- The checks of a query; the result is the number of its columns.
abbrev pub check_query_data : List BindData → Result ℕ
check_query_data (d ∷ []) =
    if not (is_empty d.table_name)
    then err query_table_name
    else if not (is_empty d.tags)
    then err query_tag
    else if is_empty d.cols
    then err query_no_col
    else one_row_each d.cols
check_query_data _ = err query_one_data

pub check_query : ℕ → ℕ → List BindData → Result ℕ
check_query tag_count col_count data' =
    if not (tag_count == 0)
    then err query_tag_types
    else if not (col_count == 0)
    then err query_col_types
    else check_query_data data'

-- What is gathered for the tables: the lengths and the bytes of the names, the tags and the columns.
pub record Sections : Type 0 where
  pub name_lengths : List ℕ
  pub names : List ℕ
  pub tag_lengths : List ℕ
  pub tags : List ℕ
  pub col_lengths : List ℕ
  pub cols : List ℕ

abbrev pub no_sections : Sections
no_sections = record {
  name_lengths = [];
  names = [];
  tag_lengths = [];
  tags = [];
  col_lengths = [];
  cols = [];
}

abbrev pub join_sections : Sections → Sections → Sections
join_sections a b = record {
  name_lengths = a.name_lengths ++ b.name_lengths;
  names = a.names ++ b.names;
  tag_lengths = a.tag_lengths ++ b.tag_lengths;
  tags = a.tags ++ b.tags;
  col_lengths = a.col_lengths ++ b.col_lengths;
  cols = a.cols ++ b.cols;
}

-- The name of a table, with a zero behind it.
pub name_section : Bool → BindData → Result (List ℕ × List ℕ)
name_section false d = ok ([], [])
name_section true d =
    if ltb 65534 (length d.table_name)
    then err table_name_too_long
    else ok ((length d.table_name + 1) ∷ [], d.table_name ++ (0 ∷ []))

-- The loops over the tags and the columns of a table: the index into the types is in range, since
-- the counts were checked.
pub col_buffers : List (List Value) → List Field → Result (List ℕ)
unfolding generate_bind_col_data
col_buffers [] fields = ok []
col_buffers (col ∷ cols) [] = panic
col_buffers (col ∷ cols) (f ∷ fields) =
    generate_bind_col_data f.field_type f.precision col >>= λ buffer.
    col_buffers cols fields >>= λ rest. ok (buffer ++ rest)

abbrev pub first_value : List Value → Result Value
first_value [] = panic
first_value (v ∷ col) = ok v

pub query_buffers : (ℕ → List ℕ) → List (List Value) → Result (List ℕ)
unfolding generate_bind_query_data
query_buffers format_time [] = ok []
query_buffers format_time (col ∷ cols) = first_value col >>= λ v.
    generate_bind_query_data format_time v >>= λ buffer.
    query_buffers format_time cols >>= λ rest. ok (buffer ++ rest)

abbrev pub one_each : List Value → List (List Value)
one_each [] = []
one_each (v ∷ values) = (v ∷ []) ∷ one_each values

abbrev pub with_length : Bool → Result (List ℕ) → Result (List ℕ × List ℕ)
with_length need r = if need then (r >>= λ bytes. ok (length bytes ∷ [], bytes)) else ok ([], [])

-- One round of the loop over the tables.
pub data_sections :
    (ℕ → List ℕ) → Bool → List Field → List Field → Bool → BindData → Bool → Bool → Result Sections
unfolding name_section col_buffers query_buffers
data_sections format_time is_insert tag_type col_type need_names d need_tags need_cols =
    name_section need_names d >>= λ n.
    with_length need_tags (col_buffers (one_each d.tags) tag_type) >>= λ t.
    with_length need_cols
      (if is_insert then col_buffers d.cols col_type else query_buffers format_time d.cols)
    >>= λ c. ok (record {
      name_lengths = n.0;
      names = n.1;
      tag_lengths = t.0;
      tags = t.1;
      col_lengths = c.0;
      cols = c.1;
    })

pub all_sections : (BindData → Result Sections) → List BindData → Result Sections
all_sections one [] = ok no_sections
all_sections one (d ∷ rest) = one d >>= λ a. all_sections one rest >>= λ b. ok (join_sections a b)

-- `for _, length := range lengths { PutUint(buffer[offset:], length); offset += k }`
pub put_lengths : ℕ → List ℕ → ℕ → List ℕ → List ℕ
put_lengths k buffer offset [] = buffer
put_lengths k buffer offset (n ∷ lengths) =
    put_lengths k (put_bytes buffer offset (le_bytes k n)) (offset + k) lengths

-- One section of the buffer: the lengths, of `k` bytes each, and the bytes behind them.
pub put_section : Bool → ℕ → List ℕ → List ℕ → List ℕ → ℕ → List ℕ
unfolding put_lengths
put_section false k lengths bytes buffer offset = buffer
put_section true k lengths bytes buffer offset =
    put_bytes (put_lengths k buffer offset lengths) (offset + length lengths * k) bytes

abbrev pub put_if : Bool → ℕ → ℕ → List ℕ → List ℕ
put_if need offset n header = if need then put_bytes header offset (le_bytes 4 n) else header

-- The end of the function: the header of 28 bytes, and the buffer.
pub write_all : ℕ → ℕ → ℕ → Bool → Bool → Bool → Sections → List ℕ
unfolding put_section
write_all count tag_count col_count need_names need_tags need_cols s =
    let tag_offset = 28 + length s.names + length s.name_lengths * 2 in
    let col_offset = tag_offset + length s.tags + length s.tag_lengths * 4 in
    let total = col_offset + length s.cols + length s.col_lengths * 4 in
    let counts =
      put_if need_cols 12 col_count
        (put_if need_tags 8 tag_count (put_bytes (replicate 28 0) 4 (le_bytes 4 count))) in
    let offsets =
      put_if need_cols 24 col_offset
        (put_if need_tags 20 tag_offset (put_if need_names 16 28 counts)) in
    let header = put_bytes offsets 0 (le_bytes 4 total) in
    let named =
      put_section need_names 2 s.name_lengths s.names (put_bytes (replicate total 0) 0 header) 28 in
    put_section need_cols 4 s.col_lengths s.cols
      (put_section need_tags 4 s.tag_lengths s.tags named tag_offset) col_offset

-- The checks before anything is written: whether there are names, and the number of columns.
abbrev pub check_data : List BindData → Bool → ℕ → ℕ → Result (Bool × ℕ)
check_data [] is_insert tag_count col_count = err empty_data
check_data (d ∷ rest) true tag_count col_count =
    check_insert tag_count col_count (d ∷ rest) >>= λ named. ok (named, col_count)
check_data (d ∷ rest) false tag_count col_count =
    check_query tag_count col_count (d ∷ rest) >>= λ n. ok (false, n)

pub marshal_stmt2_binary : (ℕ → List ℕ) → List BindData → Bool → List Field → Result (List ℕ)
unfolding data_sections all_sections write_all
marshal_stmt2_binary format_time data' is_insert fields =
    let col_type = fields_of 1 fields in
    let tag_type = fields_of 2 fields in
    let tag_count = length tag_type in
    let checked : Result (Bool × ℕ) = check_data data' is_insert tag_count (length col_type) in
    checked >>= λ c.
    let need_tags = not (tag_count == 0) in
    let need_cols = not (c.1 == 0) in
    if c.0 || (need_tags || need_cols)
    then (all_sections
          (λ d. data_sections format_time is_insert tag_type col_type c.0 d need_tags need_cols)
          data'
        >>= λ s. ok (write_all (length data') tag_count c.1 c.0 need_tags need_cols s))
    else err no_data
