-- ===== src/Stmt2/Marshal/Gathered.antt =====
-- The loop over the tables in `MarshalStmt2Binary` of driver/common/stmt/stmt2.go.
use taosadapter.Common.{ℕ, ◌≡◌, refl, ap, ◌∙◌, Bool, true, false, List, [], ◌∷◌, if◌then◌else◌}
use taosadapter.Stmt2.{Result, ok, err, panic, ◌>>=◌}
use taosadapter.Stmt2.Marshal.{
  BindData, Field, Sections, join_sections, with_length, col_buffers, query_buffers, data_sections,
  all_sections,
}
use taosadapter.Stmt2.Marshal.Tables.{
  Part, columns_in, tags_in, query_in, name_in, needed, part_of, parts_of, gathered, one,
  columns_lem, tags_lem, query_lem, name_lem, counted_lem, chained,
}

-- The part of a table in a statement.
abbrev pub table_part :
    (ℕ → List ℕ) → Bool → List Field → List Field → Bool → Bool → Bool → BindData → Result Part
table_part format_time is_insert tag_type col_type named tagged columned d =
    part_of named tagged columned (name_in d.table_name) (tags_in d.tags tag_type)
      (if is_insert then columns_in d.cols col_type else query_in format_time d.cols)

abbrev Piece : Type 0
Piece = Result (List ℕ × List ℕ)

abbrev chain : Piece → Piece → Piece → Result Sections
chain r q s = r >>= λ n. q >>= λ t. s >>= λ c. ok (record {
  name_lengths = n.0;
  names = n.1;
  tag_lengths = t.0;
  tags = t.1;
  col_lengths = c.0;
  cols = c.1;
})

same_chain : {r r' q q' s s' : Piece} → r ≡ r' → q ≡ q' → s ≡ s' → chain r q s ≡ chain r' q' s'
same_chain {r} {r'} {q} {q'} {s} {s'} e f g =
    ap (λ (x : Piece). chain x q s) e
    ∙ ap (λ (x : Piece). chain r' x s) f
    ∙ ap (λ (x : Piece). chain r' q' x) g

values_lem :
    (format_time : ℕ → List ℕ) (is_insert : Bool) (col_type : List Field) (d : BindData)
    → (if is_insert then col_buffers d.cols col_type else query_buffers format_time d.cols)
      ≡ (if is_insert then columns_in d.cols col_type else query_in format_time d.cols)
values_lem format_time true col_type d = columns_lem d.cols col_type
values_lem format_time false col_type d = query_lem format_time d.cols

pub data_sections_lem :
    (format_time : ℕ → List ℕ) (is_insert : Bool) (tag_type col_type : List Field)
    (named tagged columned : Bool) (d : BindData)
    → data_sections format_time is_insert tag_type col_type named d tagged columned
      ≡ table_part format_time is_insert tag_type col_type named tagged columned d >>= λ p.
          ok (one named tagged columned p)
unfolding data_sections
data_sections_lem format_time is_insert tag_type col_type named tagged columned d =
    let cols = if is_insert then columns_in d.cols col_type else query_in format_time d.cols in
    same_chain (name_lem named d)
      (ap (with_length tagged) (tags_lem d.tags tag_type)
        ∙ counted_lem tagged (tags_in d.tags tag_type))
      (ap (with_length columned) (values_lem format_time is_insert col_type d)
        ∙ counted_lem columned cols)
    ∙ chained named tagged columned (needed named (name_in d.table_name))
        (needed tagged (tags_in d.tags tag_type)) (needed columned cols)

module _ (named tagged columned : Bool) where
  one_more :
      (o : Result Part) (r : Result (List Part))
      → (o >>= λ p. ok (one named tagged columned p)) >>= (λ a.
          (r >>= λ ps. ok (gathered named tagged columned ps)) >>= λ b. ok (join_sections a b))
        ≡ (o >>= λ p. r >>= λ ps. ok (p ∷ ps)) >>= λ ps. ok (gathered named tagged columned ps)
  one_more (err e) r = refl
  one_more panic r = refl
  one_more (ok p) (err e) = refl
  one_more (ok p) panic = refl
  one_more (ok p) (ok ps) = refl

  pub all_sections_lem :
      (step : BindData → Result Sections) (part : BindData → Result Part) (tables : List BindData)
      → ((d : BindData) → step d ≡ part d >>= λ p. ok (one named tagged columned p))
      → all_sections step tables
        ≡ parts_of part tables >>= λ ps. ok (gathered named tagged columned ps)
  unfolding all_sections
  all_sections_lem step part [] h = refl
  all_sections_lem step part (d ∷ tables) h =
      ap (λ r. r >>= λ a. all_sections step tables >>= λ b. ok (join_sections a b)) (h d)
      ∙ ap
          (λ r. (part d >>= λ p. ok (one named tagged columned p)) >>= λ a.
            r >>= λ b. ok (join_sections a b))
          (all_sections_lem step part tables h)
      ∙ one_more (part d) (parts_of part tables)
