-- ===== src/Holders.antt =====
-- controller/ws/ws/query_result.go and free.go: the results and statements of one websocket
-- connection, under the numbers that its client uses. Each function holds the holder's lock. A
-- pointer is its address, and 0 is nil. What is released is a list of pointers.
pub mod Keyed
pub mod Items
pub mod ResultCalls
pub mod StmtCalls
pub mod Runs
use taosadapter.Common.{
  ℕ, suc, ◌+◌, ◌%◌, ◌^◌, Bool, true, false, not, ◌&&◌, ◌++◌, List, [], ◌∷◌, Option, none, some,
  ◌==◌, if◌then◌else◌,
}

-- The loops over the list of a holder: the first node with the number, and the list without it.
module _ {ℓ} {A : Type ℓ} (number : A → ℕ) where
  abbrev pub find : ℕ → List A → Option A
  find i [] = none
  find i (a ∷ items) = let rest = find i items in if number a == i then some a else rest

  abbrev pub remove : ℕ → List A → List A
  remove i [] = []
  remove i (a ∷ items) = let rest = remove i items in if number a == i then items else a ∷ rest

pub record QueryResult : Type 0 where
  pub index : ℕ
  pub taos_result : ℕ
  pub block : ℕ
  pub in_stmt : Bool

-- `QueryResult.free`, with what it hands to `async.FreeResultAsync`.
pub free_result : QueryResult → QueryResult × List ℕ
free_result r =
    let r' = record r { block = 0 } in
    if r.taos_result == 0
    then (r', [])
    else if r.in_stmt
    then (record r' { taos_result = 0 }, [])
    else (record r' { taos_result = 0 }, r.taos_result ∷ [])

pub record QueryResultHolder : Type 0 where
  pub index : ℕ
  pub results : List QueryResult

abbrev pub new_query_result_holder : QueryResultHolder
new_query_result_holder = record { index = 0; results = [] }

pub add_result : QueryResult → QueryResultHolder → QueryResultHolder × ℕ
add_result r h =
    let index = (h.index + 1) % 2 ^ 64 in
    (record { index = index; results = h.results ++ (record r { index = index } ∷ []) }, index)

pub get_result : ℕ → QueryResultHolder → Option QueryResult
get_result i h = find (λ (r : QueryResult). r.index) i h.results

abbrev pub free_found : ℕ → QueryResultHolder → Option QueryResult → QueryResultHolder × List ℕ
free_found i h none = (h, [])
free_found i h (some r) =
    (record h { results = remove (λ (x : QueryResult). x.index) i h.results }, (free_result r).1)

-- `FreeResultByID`, which is all that the message handler's `freeResult` does.
pub free_result_by_id : ℕ → QueryResultHolder → QueryResultHolder × List ℕ
unfolding get_result
free_result_by_id i h = free_found i h (get_result i h)

pub free_results : List QueryResult → List ℕ
unfolding free_result
free_results [] = []
free_results (r ∷ rs) = (free_result r).1 ++ free_results rs

-- `QueryResultHolder.FreeAll`
pub free_all_results : QueryResultHolder → QueryResultHolder × List ℕ
unfolding free_results
free_all_results h = (record h { results = [] }, free_results h.results)

-- `stmt` is the statement of the client library, `handler` the handle of its callback.
pub record StmtItem : Type 0 where
  pub index : ℕ
  pub stmt : ℕ
  pub handler : ℕ
  pub is_stmt2 : Bool

-- `TaosStmtClose`, and `TaosStmt2Close` with the return of the callback to its pool.
pub data Closing : Type 0 where
  closes : ℕ → Closing
  closes2 : ℕ → ℕ → Closing

-- `StmtItem.free`
pub free_stmt : StmtItem → StmtItem × List Closing
free_stmt s =
    if s.stmt == 0
    then (s, [])
    else if s.is_stmt2
    then (record s { stmt = 0 }, closes2 s.stmt s.handler ∷ [])
    else (record s { stmt = 0 }, closes s.stmt ∷ [])

pub record StmtHolder : Type 0 where
  pub index : ℕ
  pub results : List StmtItem

abbrev pub new_stmt_holder : StmtHolder
new_stmt_holder = record { index = 0; results = [] }

pub add_stmt : StmtItem → StmtHolder → StmtHolder × ℕ
add_stmt s h =
    let index = (h.index + 1) % 2 ^ 64 in
    (record { index = index; results = h.results ++ (record s { index = index } ∷ []) }, index)

pub get_by_index : ℕ → StmtHolder → Option StmtItem
get_by_index i h = find (λ (s : StmtItem). s.index) i h.results

-- A statement of the other kind is as good as none.
abbrev pub keep_if : (StmtItem → Bool) → Option StmtItem → Option StmtItem
keep_if test none = none
keep_if test (some s) = if test s then some s else none

-- `StmtHolder.Get` and `GetStmt2`
pub get_stmt : ℕ → StmtHolder → Option StmtItem
unfolding get_by_index
get_stmt i h = keep_if (λ s. not s.is_stmt2) (get_by_index i h)

pub get_stmt2 : ℕ → StmtHolder → Option StmtItem
unfolding get_by_index
get_stmt2 i h = keep_if (λ s. s.is_stmt2) (get_by_index i h)

abbrev pub same_kind : Bool → Bool → Bool
same_kind true b = b
same_kind false b = not b

abbrev pub free_stmt_found :
    ℕ → Bool → StmtHolder → Option StmtItem → StmtHolder × Option (List Closing)
free_stmt_found i is_stmt2 h none = (h, some [])
free_stmt_found i is_stmt2 h (some s) =
    if same_kind s.is_stmt2 is_stmt2
    then (
      record h { results = remove (λ (x : StmtItem). x.index) i h.results },
      some (free_stmt s).1,
    )
    else (h, none)

-- `FreeStmtByID`; `none` is the error `stmt type not match`.
pub free_stmt_by_id : ℕ → Bool → StmtHolder → StmtHolder × Option (List Closing)
unfolding get_by_index
free_stmt_by_id i is_stmt2 h = free_stmt_found i is_stmt2 h (get_by_index i h)

pub free_stmts : List StmtItem → List Closing
unfolding free_stmt
free_stmts [] = []
free_stmts (s ∷ rest) = (free_stmt s).1 ++ free_stmts rest

-- `StmtHolder.FreeAll`
pub free_all_stmts : StmtHolder → StmtHolder × List Closing
unfolding free_stmts
free_all_stmts h = (record h { results = [] }, free_stmts h.results)
