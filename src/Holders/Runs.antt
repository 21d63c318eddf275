-- ===== src/Holders/Runs.antt =====
-- Runs of controller/ws/ws/query_result.go.
use taosadapter.Common.{ℕ, ◌+◌, ◌≡◌, Bool, true, false, [], ◌∷◌, none, some, arith}
use taosadapter.Holders.{
  QueryResult, free_result, new_query_result_holder, StmtItem, closes, closes2, free_stmt,
  new_stmt_holder,
}
use taosadapter.Holders.Items.{number, item, freed, mismatch, answers}
use taosadapter.Holders.ResultCalls.{
  adds, gets, frees, frees_all, call_results, query_result_holder_refines,
}
use taosadapter.Holders.StmtCalls.{call_stmts, stmt_holder_refines}
use taosadapter.Holders.StmtCalls.{
  adds as adds_stmt, gets as gets_stmt, frees as frees_stmt, frees_all as frees_all_stmts,
}

abbrev result : ℕ → QueryResult
result p = record { index = 0; taos_result = p; block = 0; in_stmt = false }

query_result_holder_refines_example :
    answers call_results
      (adds (result 16) ∷ adds (result 32) ∷ gets 1 ∷ frees 1 ∷ frees 1 ∷ frees_all ∷ [])
      new_query_result_holder
    ≡ number 1
      ∷ number 2
      ∷ item (some (record (result 16) { index = 1 }))
      ∷ freed (16 ∷ [])
      ∷ freed []
      ∷ freed (32 ∷ [])
      ∷ []
unfolding free_result
query_result_holder_refines_example =
    query_result_holder_refines
      (adds (result 16) ∷ adds (result 32) ∷ gets 1 ∷ frees 1 ∷ frees 1 ∷ frees_all ∷ [])
      (omega arith)

abbrev stmt : ℕ → Bool → StmtItem
stmt p is_stmt2 = record { index = 0; stmt = p; handler = p + 1; is_stmt2 = is_stmt2 }

stmt_holder_refines_example :
    answers call_stmts
      (adds_stmt (stmt 16 false)
        ∷ adds_stmt (stmt 32 true)
        ∷ gets_stmt 2
        ∷ frees_stmt 2 false
        ∷ frees_stmt 1 false
        ∷ frees_all_stmts
        ∷ [])
      new_stmt_holder
    ≡ number 1
      ∷ number 2
      ∷ item none
      ∷ mismatch
      ∷ freed (closes 16 ∷ [])
      ∷ freed (closes2 32 33 ∷ [])
      ∷ []
unfolding free_stmt
stmt_holder_refines_example =
    stmt_holder_refines
      (adds_stmt (stmt 16 false)
        ∷ adds_stmt (stmt 32 true)
        ∷ gets_stmt 2
        ∷ frees_stmt 2 false
        ∷ frees_stmt 1 false
        ∷ frees_all_stmts
        ∷ [])
      (omega arith)
