-- ===== src/Stmt2/Runs.antt =====
-- Runs of driver/common/stmt/stmt2.go.
use taosadapter.Common.{◌≡◌, true, List, [], ◌∷◌}
use taosadapter.Stmt2.{
  null, int16, int32, text, ok, generate_bind_col_data, generate_bind_query_data,
}
use taosadapter.Stmt2.Marshal.{BindData, Field, marshal_stmt2_binary}
use taosadapter.Stmt2.Marshal.Whole.{marshal_stmt2_binary-expected}
use taosadapter.Stmt2.Column.{generate_bind_col_data-expected}
use taosadapter.Stmt2.Query.{generate_bind_query_data-expected}

-- Two rows of type binary, nil and `ab`.
generate_bind_col_data-expected_example :
    generate_bind_col_data 8 0 (null ∷ text (97 ∷ 98 ∷ []) ∷ [])
    ≡ ok (
        29 ∷ 0 ∷ 0 ∷ 0 ∷ 8 ∷ 0 ∷ 0 ∷ 0 ∷ 2 ∷ 0 ∷ 0 ∷ 0 ∷ 1 ∷ 0 ∷ 1 ∷ 0 ∷ 0 ∷ 0 ∷ 0 ∷ 2 ∷ 0 ∷ 0 ∷ 0
        ∷ 2 ∷ 0 ∷ 0 ∷ 0 ∷ 97 ∷ 98 ∷ [])
generate_bind_col_data-expected_example =
    generate_bind_col_data-expected 8 0 (null ∷ text (97 ∷ 98 ∷ []) ∷ [])

generate_bind_query_data-expected_example :
    generate_bind_query_data (λ ns. []) (int16 258)
    ≡ ok (20 ∷ 0 ∷ 0 ∷ 0 ∷ 3 ∷ 0 ∷ 0 ∷ 0 ∷ 1 ∷ 0 ∷ 0 ∷ 0 ∷ 0 ∷ 0 ∷ 2 ∷ 0 ∷ 0 ∷ 0 ∷ 2 ∷ 1 ∷ [])
generate_bind_query_data-expected_example = generate_bind_query_data-expected (λ ns. []) (int16 258)

-- One row of type int for each of the tables `t` and `u`.
abbrev two_tables : List BindData
two_tables =
    record { table_name = 116 ∷ []; tags = []; cols = (int32 7 ∷ []) ∷ [] }
    ∷ record { table_name = 117 ∷ []; tags = []; cols = (int32 8 ∷ []) ∷ [] }
    ∷ []

abbrev int_binding : List Field
int_binding = record { field_type = 4; precision = 0; bind_type = 1 } ∷ []

marshal_stmt2_binary-expected_example :
    marshal_stmt2_binary (λ ns. []) two_tables true int_binding
    ≡ ok (
        88 ∷ 0 ∷ 0 ∷ 0 ∷ 2 ∷ 0 ∷ 0 ∷ 0 ∷ 0 ∷ 0 ∷ 0 ∷ 0 ∷ 1 ∷ 0 ∷ 0 ∷ 0 ∷ 28 ∷ 0 ∷ 0 ∷ 0 ∷ 0 ∷ 0 ∷ 0
        ∷ 0 ∷ 36 ∷ 0 ∷ 0 ∷ 0 ∷ 2 ∷ 0 ∷ 2 ∷ 0 ∷ 116 ∷ 0 ∷ 117 ∷ 0 ∷ 22 ∷ 0 ∷ 0 ∷ 0 ∷ 22 ∷ 0 ∷ 0 ∷ 0
        ∷ 22 ∷ 0 ∷ 0 ∷ 0 ∷ 4 ∷ 0 ∷ 0 ∷ 0 ∷ 1 ∷ 0 ∷ 0 ∷ 0 ∷ 0 ∷ 0 ∷ 4 ∷ 0 ∷ 0 ∷ 0 ∷ 7 ∷ 0 ∷ 0 ∷ 0
        ∷ 22 ∷ 0 ∷ 0 ∷ 0 ∷ 4 ∷ 0 ∷ 0 ∷ 0 ∷ 1 ∷ 0 ∷ 0 ∷ 0 ∷ 0 ∷ 0 ∷ 4 ∷ 0 ∷ 0 ∷ 0 ∷ 8 ∷ 0 ∷ 0 ∷ 0
        ∷ [])
marshal_stmt2_binary-expected_example =
    marshal_stmt2_binary-expected (λ ns. []) two_tables true int_binding
