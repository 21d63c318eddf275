-- ===== src/Stmt2/Marshal/Tables.antt =====
-- The bytes that `MarshalStmt2Binary` of driver/common/stmt/stmt2.go is to gather of the tables.
use taosadapter.Common.{
  ℕ, ◌≡◌, refl, ap, ◌∙◌, Bool, true, false, ltb, List, [], ◌∷◌, ◌++◌, arith, ◌==◌, if◌then◌else◌,
  length, length-append,
}
use taosadapter.Stmt2.{Value, Result, ok, err, panic, table_name_too_long, ◌>>=◌}
use taosadapter.Stmt2.Expected.{expected}
use taosadapter.Stmt2.Column.{generate_bind_col_data-expected}
use taosadapter.Stmt2.Query.{expected_query, generate_bind_query_data-expected}
use taosadapter.Stmt2.Marshal.{
  BindData, Field, fields_of, Sections, name_section, with_length, col_buffers, query_buffers,
  one_each,
}

-- The types of the columns, or of the tags.
abbrev pub types_of : ℕ → List Field → List Field
types_of kind [] = []
types_of kind (f ∷ fields) = (if kind == f.bind_type then f ∷ [] else []) ++ types_of kind fields

-- The columns of a table, each with its type. There are as many types as columns.
abbrev pub columns_in : List (List Value) → List Field → Result (List ℕ)
columns_in [] types = ok []
columns_in (col ∷ cols) [] = panic
columns_in (col ∷ cols) (f ∷ types) =
    expected f.field_type f.precision col >>= λ x. columns_in cols types >>= λ xs. ok (x ++ xs)

-- The tags of a table are columns of one row.
abbrev pub tags_in : List Value → List Field → Result (List ℕ)
tags_in [] types = ok []
tags_in (v ∷ tags) [] = panic
tags_in (v ∷ tags) (f ∷ types) =
    expected f.field_type f.precision (v ∷ []) >>= λ x. tags_in tags types >>= λ xs. ok (x ++ xs)

-- The columns of a query have one row, and the types of their values.
abbrev pub query_in : (ℕ → List ℕ) → List (List Value) → Result (List ℕ)
query_in format_time [] = ok []
query_in format_time ([] ∷ cols) = panic
query_in format_time ((v ∷ col) ∷ cols) =
    expected_query format_time v >>= λ x. query_in format_time cols >>= λ xs. ok (x ++ xs)

-- The name of a table is at most 65534 bytes long, and has a zero behind it.
abbrev pub name_in : List ℕ → Result (List ℕ)
name_in name = if ltb 65534 (length name) then err table_name_too_long else ok (name ++ (0 ∷ []))

-- The bytes of one table: its name, its tags, its columns.
pub record Part : Type 0 where
  pub name_bytes : List ℕ
  tag_bytes : List ℕ
  col_bytes : List ℕ

abbrev pub needed : Bool → Result (List ℕ) → Result (List ℕ)
needed need r = if need then r else ok []

abbrev pub part_of :
    Bool → Bool → Bool → Result (List ℕ) → Result (List ℕ) → Result (List ℕ) → Result Part
part_of named tagged columned name tags cols = needed named name >>= λ x.
    needed tagged tags >>= λ y.
    needed columned cols >>= λ z. ok (record { name_bytes = x; tag_bytes = y; col_bytes = z })

-- The parts of all tables, or the first error.
abbrev pub parts_of : (BindData → Result Part) → List BindData → Result (List Part)
parts_of part [] = ok []
parts_of part (d ∷ tables) = part d >>= λ p. parts_of part tables >>= λ ps. ok (p ∷ ps)

-- For each table one number, the length of what the table gives, in a section that is needed.
abbrev lengths_of : Bool → (Part → List ℕ) → List Part → List ℕ
lengths_of need bytes [] = []
lengths_of need bytes (p ∷ ps) =
    (if need then length (bytes p) ∷ [] else []) ++ lengths_of need bytes ps

abbrev pub joined : (Part → List ℕ) → List Part → List ℕ
joined bytes [] = []
joined bytes (p ∷ ps) = bytes p ++ joined bytes ps

abbrev pub gathered : Bool → Bool → Bool → List Part → Sections
gathered named tagged columned ps = record {
  name_lengths = lengths_of named (λ p. p.name_bytes) ps;
  names = joined (λ p. p.name_bytes) ps;
  tag_lengths = lengths_of tagged (λ p. p.tag_bytes) ps;
  tags = joined (λ p. p.tag_bytes) ps;
  col_lengths = lengths_of columned (λ p. p.col_bytes) ps;
  cols = joined (λ p. p.col_bytes) ps;
}

-- The loops of the code gather these.
pub types_lem : (kind : ℕ) (fields : List Field) → fields_of kind fields ≡ types_of kind fields
types_lem kind [] = refl
types_lem kind (f ∷ fields) = ground (arith, types_lem kind fields)

pub columns_lem :
    (cols : List (List Value)) (types : List Field) → col_buffers cols types ≡ columns_in cols types
unfolding col_buffers
columns_lem [] types = refl
columns_lem (col ∷ cols) [] = refl
columns_lem (col ∷ cols) (f ∷ types) =
    ap (λ r. r >>= λ x. col_buffers cols types >>= λ xs. ok (x ++ xs))
      (generate_bind_col_data-expected f.field_type f.precision col)
    ∙ ap (λ r. expected f.field_type f.precision col >>= λ x. r >>= λ xs. ok (x ++ xs))
        (columns_lem cols types)

pub tags_lem :
    (tags : List Value) (types : List Field)
    → col_buffers (one_each tags) types ≡ tags_in tags types
unfolding col_buffers
tags_lem [] types = refl
tags_lem (v ∷ tags) [] = refl
tags_lem (v ∷ tags) (f ∷ types) =
    ap (λ r. r >>= λ x. col_buffers (one_each tags) types >>= λ xs. ok (x ++ xs))
      (generate_bind_col_data-expected f.field_type f.precision (v ∷ []))
    ∙ ap (λ r. expected f.field_type f.precision (v ∷ []) >>= λ x. r >>= λ xs. ok (x ++ xs))
        (tags_lem tags types)

pub query_lem :
    (format_time : ℕ → List ℕ) (cols : List (List Value))
    → query_buffers format_time cols ≡ query_in format_time cols
unfolding query_buffers
query_lem format_time [] = refl
query_lem format_time ([] ∷ cols) = refl
query_lem format_time ((v ∷ col) ∷ cols) =
    ap (λ r. r >>= λ x. query_buffers format_time cols >>= λ xs. ok (x ++ xs))
      (generate_bind_query_data-expected format_time v)
    ∙ ap (λ r. expected_query format_time v >>= λ x. r >>= λ xs. ok (x ++ xs))
        (query_lem format_time cols)

-- What is needed, with its length.
abbrev pub counted : Bool → List ℕ → List ℕ × List ℕ
counted need xs = (if need then length xs ∷ [] else [], xs)

pub name_lem :
    (named : Bool) (d : BindData)
    → name_section named d ≡ needed named (name_in d.table_name) >>= λ x. ok (counted named x)
unfolding name_section
name_lem false d = refl
name_lem true d = ground (arith, length-append d.table_name (0 ∷ []))

pub counted_lem :
    (need : Bool) (r : Result (List ℕ))
    → with_length need r ≡ needed need r >>= λ x. ok (counted need x)
counted_lem false r = refl
counted_lem true r = refl

-- What one table adds.
abbrev pub one : Bool → Bool → Bool → Part → Sections
one named tagged columned p = record {
  name_lengths = (counted named p.name_bytes).0;
  names = p.name_bytes;
  tag_lengths = (counted tagged p.tag_bytes).0;
  tags = p.tag_bytes;
  col_lengths = (counted columned p.col_bytes).0;
  cols = p.col_bytes;
}

pub chained :
    (named tagged columned : Bool) (r q s : Result (List ℕ))
    → (r >>= λ x. ok (counted named x)) >>= (λ n. (q >>= λ y. ok (counted tagged y)) >>= λ t.
        (s >>= λ z. ok (counted columned z)) >>= λ c. ok (record {
          name_lengths = n.0;
          names = n.1;
          tag_lengths = t.0;
          tags = t.1;
          col_lengths = c.0;
          cols = c.1;
        }))
      ≡ (r >>= λ x.
          q >>= λ y. s >>= λ z. ok (record { name_bytes = x; tag_bytes = y; col_bytes = z }))
        >>= λ p. ok (one named tagged columned p)
chained named tagged columned (err e) q s = refl
chained named tagged columned panic q s = refl
chained named tagged columned (ok x) (err e) s = refl
chained named tagged columned (ok x) panic s = refl
chained named tagged columned (ok x) (ok y) (err e) = refl
chained named tagged columned (ok x) (ok y) panic = refl
chained named tagged columned (ok x) (ok y) (ok z) = refl
