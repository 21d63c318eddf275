-- ===== src/Holders/StmtCalls.antt =====
-- The holder of statements of controller/ws/ws/query_result.go against a map.
use taosadapter.Common.{
  ℕ, suc, ◌+◌, ◌%◌, ◌^◌, ◌≤◌, ◌<◌, ◌≡◌, refl, sym, ap, ◌∙◌, Bool, not, ◌++◌, List, [], ◌∷◌, Option,
  none, some, arith, if◌then◌else◌, length, Bool-cases, inl, inr,
}
use taosadapter.Holders.{
  find, StmtItem, Closing, free_stmt, StmtHolder, new_stmt_holder, add_stmt, get_by_index, keep_if,
  get_stmt, get_stmt2, same_kind, free_stmt_found, free_stmt_by_id, free_stmts, free_all_stmts,
}
use taosadapter.Holders.Keyed.{
  collect, concat_map, StandsFor, append-StandsFor, remove-StandsFor, collect-StandsFor,
}
use taosadapter.Holders.Items.{
  Items, no_items, put_item, drop_item, drop_items, Answer, number, item, freed, mismatch, answers,
}

-- The calls of a holder of statements.
pub data StmtCall : Type 0 where
  adds : StmtItem → StmtCall
  gets gets2 : ℕ → StmtCall
  frees : ℕ → Bool → StmtCall
  frees_all : StmtCall

abbrev pub freed_or_mismatch : Option (List Closing) → Answer StmtItem Closing
freed_or_mismatch none = mismatch
freed_or_mismatch (some xs) = freed xs

pub call_stmts : StmtCall → StmtHolder → StmtHolder × Answer StmtItem Closing
unfolding add_stmt get_stmt get_stmt2 free_stmt_by_id free_all_stmts
call_stmts (adds s) h = ((add_stmt s h).0, number (add_stmt s h).1)
call_stmts (gets i) h = (h, item (get_stmt i h))
call_stmts (gets2 i) h = (h, item (get_stmt2 i h))
call_stmts (frees i is_stmt2) h =
    ((free_stmt_by_id i is_stmt2 h).0, freed_or_mismatch (free_stmt_by_id i is_stmt2 h).1)
call_stmts frees_all h = ((free_all_stmts h).0, freed (free_all_stmts h).1)

abbrev pub closings : StmtItem → List Closing
closings s = (free_stmt s).1

-- The release of a statement that the map has at a number.
abbrev pub map_frees :
    ℕ → Bool → Items StmtItem → Option StmtItem → Items StmtItem × Option (List Closing)
map_frees i is_stmt2 m none = (m, some [])
map_frees i is_stmt2 m (some s) =
    if same_kind s.is_stmt2 is_stmt2 then (drop_item i m, some (closings s)) else (m, none)

-- The same calls on the map: an item is seen and released as a statement of its own kind only.
abbrev pub map_stmts : StmtCall → Items StmtItem → Items StmtItem × Answer StmtItem Closing
map_stmts (adds s) m = (put_item (λ i. record s { index = i }) m, number (suc m.given))
map_stmts (gets i) m = (m, item (keep_if (λ s. not s.is_stmt2) (m.at i)))
map_stmts (gets2 i) m = (m, item (keep_if (λ s. s.is_stmt2) (m.at i)))
map_stmts (frees i is_stmt2) m =
    ((map_frees i is_stmt2 m (m.at i)).0, freed_or_mismatch (map_frees i is_stmt2 m (m.at i)).1)
map_stmts frees_all m = (drop_items m, freed (collect closings m.at 0 m.given))

-- The holder stands for the map.
abbrev Stmts : StmtHolder → Items StmtItem → Type 0
Stmts h m = (h.index ≡ m.given) × StandsFor (λ (s : StmtItem). s.index) m.given h.results m.at

free_stmts_lem : (ss : List StmtItem) → free_stmts ss ≡ concat_map closings ss
unfolding free_stmts
free_stmts_lem [] = refl
free_stmts_lem (s ∷ ss) = ap (λ (xs : List Closing). closings s ++ xs) (free_stmts_lem ss)

free_stmt_found_lem :
    (i : ℕ) (is_stmt2 : Bool) (h : StmtHolder) (m : Items StmtItem) (o : Option StmtItem)
    → m.at i ≡ o
    → Stmts h m
    → Stmts (free_stmt_found i is_stmt2 h o).0 (map_frees i is_stmt2 m o).0
      × ((free_stmt_found i is_stmt2 h o).1 ≡ (map_frees i is_stmt2 m o).1)
free_stmt_found_lem i is_stmt2 h m none e rel = (rel, refl)
free_stmt_found_lem i is_stmt2 h m (some s) e rel =
    elim (Bool-cases (same_kind s.is_stmt2 is_stmt2)) [
      | inl f ↦ rw f (
        (rel.0, remove-StandsFor (λ (x : StmtItem). x.index) m.given i h.results m.at rel.1),
        refl,
      )
      | inr f ↦ rw f (rel, refl)
    ]

call_stmts_lem :
    (c : StmtCall) (h : StmtHolder) (m : Items StmtItem)
    → suc m.given < 2 ^ 64
    → Stmts h m
    → Stmts (call_stmts c h).0 (map_stmts c m).0 × ((call_stmts c h).1 ≡ (map_stmts c m).1)
unfolding call_stmts add_stmt get_stmt get_stmt2 get_by_index free_stmt_by_id free_all_stmts
call_stmts_lem (adds s) h m small rel =
    let e : (h.index + 1) % 2 ^ 64 ≡ suc m.given = omega (arith, rel.0) in
    rw e (
      (
        refl,
        append-StandsFor (λ (s : StmtItem). s.index) m.given h.results m.at
            (record s { index = suc m.given }) refl rel.1,
      ),
      refl,
    )
call_stmts_lem (gets i) h m small rel =
    (rel, ap (λ o. item (keep_if (λ (s : StmtItem). not s.is_stmt2) o)) (rel.1.1 i))
call_stmts_lem (gets2 i) h m small rel =
    (rel, ap (λ o. item (keep_if (λ (s : StmtItem). s.is_stmt2) o)) (rel.1.1 i))
call_stmts_lem (frees i is_stmt2) h m small rel =
    let found = find (λ (s : StmtItem). s.index) i h.results in
    let same : m.at i ≡ found = sym (rel.1.1 i) in
    let (rel', e) = free_stmt_found_lem i is_stmt2 h m found same rel in
    rw same (rel', ap freed_or_mismatch e)
call_stmts_lem frees_all h m small rel = (
  (rel.0, (omega arith, λ i. refl)),
  ap freed (
      free_stmts_lem h.results
      ∙ sym (collect-StandsFor (λ (s : StmtItem). s.index) closings m.given h.results m.at rel.1)),
)

map_frees-given :
    (i : ℕ) (is_stmt2 : Bool) (m : Items StmtItem) (o : Option StmtItem)
    → (map_frees i is_stmt2 m o).0.given ≡ m.given
map_frees-given i is_stmt2 m none = refl
map_frees-given i is_stmt2 m (some s) = ground arith

-- One call gives out at most one number.
given_lem : (c : StmtCall) (m : Items StmtItem) → (map_stmts c m).0.given ≤ suc m.given
given_lem (adds s) m = omega arith
given_lem (gets i) m = omega arith
given_lem (gets2 i) m = omega arith
given_lem (frees i is_stmt2) m = omega (arith, map_frees-given i is_stmt2 m (m.at i))
given_lem frees_all m = omega arith

answers_lem :
    (cs : List StmtCall) (h : StmtHolder) (m : Items StmtItem)
    → m.given + length cs < 2 ^ 64
    → Stmts h m
    → answers call_stmts cs h ≡ answers map_stmts cs m
answers_lem [] h m small rel = refl
answers_lem (c ∷ cs) h m small rel =
    let (rel', e) = call_stmts_lem c h m (omega arith) rel in
    let rest =
      answers_lem cs (call_stmts c h).0 (map_stmts c m).0 (omega (arith, given_lem c m)) rel' in
    ap (λ x. x ∷ answers call_stmts cs (call_stmts c h).0) e
    ∙ ap (λ xs. (map_stmts c m).1 ∷ xs) rest

-- A new holder of statements answers every sequence of fewer than 2 ^ 64 calls as a map does: `Add`
-- gives out the numbers 1, 2, 3, …, `Get` and `GetStmt2` answer the statement with the number as it
-- was added when it is of their kind, and else nil, `FreeStmtByID` closes the statement with the
-- number and forgets it, gives an error and keeps it when it is of the other kind, and does nothing
-- for another number, and `FreeAll` closes every statement that is left, in the order of their
-- numbers.
pub stmt_holder_refines :
    (cs : List StmtCall)
    → length cs < 2 ^ 64
    → answers call_stmts cs new_stmt_holder ≡ answers map_stmts cs no_items
stmt_holder_refines cs small =
    answers_lem cs new_stmt_holder no_items (omega arith) (refl, (omega arith, λ i. refl))
