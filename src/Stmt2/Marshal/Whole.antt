-- ===== src/Stmt2/Marshal/Whole.antt =====
-- `MarshalStmt2Binary` of driver/common/stmt/stmt2.go as a whole.
use taosadapter.Common.{
  ℕ, ◌≡◌, refl, ap, ◌∙◌, subst, Bool, true, false, not, ◌||◌, ltb, if_both, arith, List, [], ◌∷◌,
  ◌++◌, ◌==◌, if◌then◌else◌, length,
}
use taosadapter.Stmt2.{Result, ok, err, panic, no_data, ◌>>=◌}
use taosadapter.Stmt2.Marshal.{
  BindData, Field, fields_of, Sections, check_data, name_section, with_length, data_sections,
  all_sections, marshal_stmt2_binary,
}
use taosadapter.Stmt2.Marshal.Expected.{checks, checks_lem}
use taosadapter.Stmt2.Marshal.Tables.{parts_of, gathered, types_of, types_lem}
use taosadapter.Stmt2.Marshal.Gathered.{table_part, data_sections_lem, all_sections_lem}
use taosadapter.Stmt2.Marshal.Layout.{Fits, layout, write_all_lem}

-- Two continuations that agree on what is given.
binds :
    {A B : Type 0} (r : Result A) (f g : A → Result B)
    → ((a : A) → r ≡ ok a → f a ≡ g a)
    → r >>= f ≡ r >>= g
binds (ok a) f g h = h a refl
binds (err e) f g h = refl
binds panic f g h = refl

abbrev Empty : Bool → List ℕ × List ℕ → Type 0
Empty b p = b ≡ false → (p.0 ≡ []) × (p.1 ≡ [])

-- What holds of all that a chain can give.
abbrev Gives : {A : Type 0} → (A → Type 0) → Result A → Type 0
Gives P (ok a) = P a
Gives P (err e) = Unit {0}
Gives P panic = Unit {0}

Gives-bind :
    {A B : Type 0} (P : A → Type 0) (Q : B → Type 0) (r : Result A) (f : A → Result B)
    → Gives P r
    → ((a : A) → P a → Gives Q (f a))
    → Gives Q (r >>= f)
Gives-bind P Q (ok a) f h k = k a h
Gives-bind P Q (err e) f h k = tt
Gives-bind P Q panic f h k = tt

Gives-ok : {A : Type 0} (P : A → Type 0) (r : Result A) (a : A) → Gives P r → r ≡ ok a → P a
Gives-ok P (ok b) a h e = let same : b ≡ a = cc e in subst P same h
Gives-ok P (err x) a h e = cc
Gives-ok P panic a h e = cc

name_section-Empty : (b : Bool) (d : BindData) → Gives (Empty b) (name_section b d)
unfolding name_section
name_section-Empty false d = λ e. (refl, refl)
name_section-Empty true d =
    if_both (Gives (Empty true)) (ltb 65534 (length d.table_name)) _ _ (λ e. tt) λ e f. cc

with_length-Empty : (b : Bool) (r : Result (List ℕ)) → Gives (Empty b) (with_length b r)
with_length-Empty false r = λ e. (refl, refl)
with_length-Empty true (ok bytes) = λ e. cc
with_length-Empty true (err x) = tt
with_length-Empty true panic = tt

data_sections-Fits :
    (format_time : ℕ → List ℕ) (is_insert : Bool) (tag_type col_type : List Field) (named : Bool)
    (d : BindData) (tagged columned : Bool)
    → Gives
        (Fits named tagged columned)
        (data_sections format_time is_insert tag_type col_type named d tagged columned)
unfolding data_sections
data_sections-Fits format_time is_insert tag_type col_type named d tagged columned =
    Gives-bind (Empty named) _ _ _ (name_section-Empty named d) λ n hn.
      Gives-bind (Empty tagged) _ _ _ (with_length-Empty tagged _) λ t ht.
        Gives-bind (Empty columned) _ _ _ (with_length-Empty columned _) λ c hc. (hn, ht, hc)

both_nil :
    {xs ys xs' ys' : List ℕ}
    → (xs ≡ []) × (ys ≡ [])
    → (xs' ≡ []) × (ys' ≡ [])
    → (xs ++ xs' ≡ []) × (ys ++ ys' ≡ [])
both_nil {xs} {ys} {xs'} {ys'} (a, b) (c, d) =
    (ap (λ (zs : List ℕ). zs ++ xs') a ∙ c, ap (λ (zs : List ℕ). zs ++ ys') b ∙ d)

all_sections-Fits :
    (named tagged columned : Bool) (one : BindData → Result Sections) (data' : List BindData)
    → ((d : BindData) → Gives (Fits named tagged columned) (one d))
    → Gives (Fits named tagged columned) (all_sections one data')
unfolding all_sections
all_sections-Fits named tagged columned one [] h =
    (λ e. (refl, refl), λ e. (refl, refl), λ e. (refl, refl))
all_sections-Fits named tagged columned one (d ∷ rest) h =
    Gives-bind (Fits named tagged columned) _ _ _ (h d) λ a fa.
      Gives-bind (Fits named tagged columned) _ _ _
        (all_sections-Fits named tagged columned one rest h)
        λ b fb. (
          λ e. both_nil (fa.0 e) (fb.0 e),
          λ e. both_nil (fa.1 e) (fb.1 e),
          λ e. both_nil (fa.2 e) (fb.2 e),
        )

marshal_stmt2_binary-layout :
    (format_time : ℕ → List ℕ) (data' : List BindData) (is_insert : Bool) (fields : List Field)
    → let col_type = fields_of 1 fields in
      let tag_type = fields_of 2 fields in
      let tagged = not (length tag_type == 0) in
      marshal_stmt2_binary format_time data' is_insert fields
      ≡ check_data data' is_insert (length tag_type) (length col_type) >>= λ c.
          if c.0 || (tagged || not (c.1 == 0))
          then (all_sections
                (λ d.
                  data_sections format_time is_insert tag_type col_type c.0 d tagged
                    (not (c.1 == 0)))
                data'
              >>= λ s.
                  ok (layout (length data') (length tag_type) c.1 c.0 tagged (not (c.1 == 0)) s))
          else err no_data
unfolding marshal_stmt2_binary
marshal_stmt2_binary-layout format_time data' is_insert fields =
    let col_type = fields_of 1 fields in
    let tag_type = fields_of 2 fields in
    let tagged = not (length tag_type == 0) in
    binds (check_data data' is_insert (length tag_type) (length col_type)) _ _ λ c e.
      ap (λ r. if c.0 || (tagged || not (c.1 == 0)) then r else err no_data)
        (binds
          (all_sections
            (λ d.
              data_sections format_time is_insert tag_type col_type c.0 d tagged (not (c.1 == 0)))
            data')
          _ _
          λ s f. ap ok (
            write_all_lem (length data') (length tag_type) c.1 c.0 tagged (not (c.1 == 0)) s (
              Gives-ok (Fits c.0 tagged (not (c.1 == 0))) _ s
                (all_sections-Fits c.0 tagged (not (c.1 == 0)) _ data' λ d.
                  data_sections-Fits format_time is_insert tag_type col_type c.0 d tagged
                    (not (c.1 == 0)))
                f)))

-- What is to be made of the tables.
abbrev laid_out :
    (ℕ → List ℕ)
    → List BindData
    → Bool
    → List Field
    → List Field
    → Bool
    → Bool × ℕ
    → Bool
    → Result (List ℕ)
laid_out format_time tables is_insert tag_type col_type tagged c columned =
    if c.0 || (tagged || columned)
    then (parts_of (table_part format_time is_insert tag_type col_type c.0 tagged columned) tables
        >>= λ ps. ok (
            layout (length tables) (length tag_type) c.1 c.0 tagged columned
              (gathered c.0 tagged columned ps)))
    else err no_data

abbrev expected_marshal : (ℕ → List ℕ) → List BindData → Bool → List Field → Result (List ℕ)
expected_marshal format_time tables is_insert fields =
    let tag_type = types_of 2 fields in
    let col_type = types_of 1 fields in
    checks tables is_insert (length tag_type) (length col_type) >>= λ c.
    laid_out format_time tables is_insert tag_type col_type (ltb 0 (length tag_type)) c (ltb 0 c.1)

regroup :
    {A B C : Type 0} (r : Result A) (f : A → B) (g : B → C)
    → (r >>= λ a. ok (f a)) >>= (λ b. ok (g b)) ≡ r >>= λ a. ok (g (f a))
regroup (ok a) f g = refl
regroup (err e) f g = refl
regroup panic f g = refl

positive : (n : ℕ) → not (n == 0) ≡ ltb 0 n
positive n = ground arith

module _ (format_time : ℕ → List ℕ) (tables : List BindData) (is_insert : Bool) where
  -- The code's sections, with the types and the tests as arguments.
  abbrev sections : List Field → List Field → Bool → Bool × ℕ → Bool → Result (List ℕ)
  sections tag_type col_type tagged c columned =
      if c.0 || (tagged || columned)
      then (all_sections
            (λ d. data_sections format_time is_insert tag_type col_type c.0 d tagged columned)
            tables
          >>= λ s. ok (layout (length tables) (length tag_type) c.1 c.0 tagged columned s))
      else err no_data

  sections_lem :
      (tag_type col_type : List Field) (tagged : Bool) (c : Bool × ℕ) (columned : Bool)
      → sections tag_type col_type tagged c columned
        ≡ laid_out format_time tables is_insert tag_type col_type tagged c columned
  sections_lem tag_type col_type tagged c columned =
      let part = table_part format_time is_insert tag_type col_type c.0 tagged columned in
      let lay : Sections → List ℕ =
        layout (length tables) (length tag_type) c.1 c.0 tagged columned in
      ap (λ (r : Result (List ℕ)). if c.0 || (tagged || columned) then r else err no_data)
        (ap (λ r. r >>= λ s. ok (lay s))
            (all_sections_lem c.0 tagged columned _ part tables
              (data_sections_lem format_time is_insert tag_type col_type c.0 tagged columned))
          ∙ regroup (parts_of part tables) (gathered c.0 tagged columned) lay)

  abbrev marshalled : List Field → List Field → Result (List ℕ)
  marshalled tag_type col_type =
      check_data tables is_insert (length tag_type) (length col_type) >>= λ c.
      sections tag_type col_type (not (length tag_type == 0)) c (not (c.1 == 0))

-- `MarshalStmt2Binary` gives the bytes that are written down here apart from its loops. No tables are
-- an error. Tables of an insert need as many tags and columns as there are types of them, a query needs
-- one table without types, name and tags, and with columns of one row: the first condition that is
-- not met is the error. Where then neither names nor tags nor columns are needed, the error is `no
-- data`; else it is the first error in a table, of a name that is too long or of a value. Without an
-- error the buffer holds a header, and behind it the lengths and the bytes of the names, of the tags
-- and of the columns of all tables, each of them where it is needed and at the offset that the header
-- has for it; a name has a zero behind it, and a column or tag has the bytes of its type.
pub marshal_stmt2_binary-expected :
    (format_time : ℕ → List ℕ) (tables : List BindData) (is_insert : Bool) (fields : List Field)
    → marshal_stmt2_binary format_time tables is_insert fields
      ≡ expected_marshal format_time tables is_insert fields
marshal_stmt2_binary-expected format_time tables is_insert fields =
    let tag_type = types_of 2 fields in
    let col_type = types_of 1 fields in
    marshal_stmt2_binary-layout format_time tables is_insert fields
    ∙ ap (λ (ts : List Field). marshalled format_time tables is_insert ts (fields_of 1 fields))
        (types_lem 2 fields)
    ∙ ap (marshalled format_time tables is_insert tag_type) (types_lem 1 fields)
    ∙ ap
        (λ r. r >>= λ c.
          sections format_time tables is_insert tag_type col_type (not (length tag_type == 0)) c
            (not (c.1 == 0)))
        (checks_lem tables is_insert (length tag_type) (length col_type))
    ∙ binds (checks tables is_insert (length tag_type) (length col_type)) _ _ λ c e.
      ap
        (λ (b : Bool). sections format_time tables is_insert tag_type col_type b c (not (c.1 == 0)))
        (positive (length tag_type))
      ∙ ap (sections format_time tables is_insert tag_type col_type (ltb 0 (length tag_type)) c)
          (positive c.1)
      ∙ sections_lem format_time tables is_insert tag_type col_type (ltb 0 (length tag_type)) c
          (ltb 0 c.1)
