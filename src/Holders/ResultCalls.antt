-- ===== src/Holders/ResultCalls.antt =====
-- The holder of query results of controller/ws/ws/query_result.go against a map.
use taosadapter.Common.{
  ℕ, suc, ◌+◌, ◌%◌, ◌^◌, ◌≤◌, ◌<◌, ◌≡◌, refl, sym, ap, ◌∙◌, ◌++◌, List, [], ◌∷◌, Option, none, some,
  arith, length,
}
use taosadapter.Holders.{
  find, QueryResult, free_result, QueryResultHolder, new_query_result_holder, add_result,
  get_result, free_found, free_result_by_id, free_results, free_all_results,
}
use taosadapter.Holders.Keyed.{
  collect, concat_map, StandsFor, append-StandsFor, remove-StandsFor, collect-StandsFor,
}
use taosadapter.Holders.Items.{
  Items, no_items, put_item, drop_item, drop_items, released, still_absent, Answer, number, item,
  freed, answers,
}

-- The calls of a holder of results, and what they answer.
pub data ResultCall : Type 0 where
  adds : QueryResult → ResultCall
  gets frees : ℕ → ResultCall
  frees_all : ResultCall

pub call_results : ResultCall → QueryResultHolder → QueryResultHolder × Answer QueryResult ℕ
unfolding add_result get_result free_result_by_id free_all_results
call_results (adds r) h = ((add_result r h).0, number (add_result r h).1)
call_results (gets i) h = (h, item (get_result i h))
call_results (frees i) h = ((free_result_by_id i h).0, freed (free_result_by_id i h).1)
call_results frees_all h = ((free_all_results h).0, freed (free_all_results h).1)

abbrev result_frees : QueryResult → List ℕ
result_frees r = (free_result r).1

-- The same calls on the map. All items are released in the order of their numbers.
abbrev pub map_results : ResultCall → Items QueryResult → Items QueryResult × Answer QueryResult ℕ
map_results (adds r) m = (put_item (λ i. record r { index = i }) m, number (suc m.given))
map_results (gets i) m = (m, item (m.at i))
map_results (frees i) m = (drop_item i m, freed (released result_frees (m.at i)))
map_results frees_all m = (drop_items m, freed (collect result_frees m.at 0 m.given))

-- The holder stands for the map.
abbrev Results : QueryResultHolder → Items QueryResult → Type 0
Results h m = (h.index ≡ m.given) × StandsFor (λ (r : QueryResult). r.index) m.given h.results m.at

free_results_lem : (rs : List QueryResult) → free_results rs ≡ concat_map result_frees rs
unfolding free_results
free_results_lem [] = refl
free_results_lem (r ∷ rs) = ap (λ (xs : List ℕ). result_frees r ++ xs) (free_results_lem rs)

free_found_lem :
    (i : ℕ) (h : QueryResultHolder) (m : Items QueryResult) (o : Option QueryResult)
    → m.at i ≡ o
    → Results h m
    → Results (free_found i h o).0 (drop_item i m)
      × ((free_found i h o).1 ≡ released result_frees (m.at i))
free_found_lem i h m none e rel =
    ((rel.0, (rel.1.0, λ j. rel.1.1 j ∙ still_absent m i j e)), rw e refl)
free_found_lem i h m (some r) e rel = (
  (rel.0, remove-StandsFor (λ (x : QueryResult). x.index) m.given i h.results m.at rel.1),
  rw e refl,
)

call_results_lem :
    (c : ResultCall) (h : QueryResultHolder) (m : Items QueryResult)
    → suc m.given < 2 ^ 64
    → Results h m
    → Results (call_results c h).0 (map_results c m).0
      × ((call_results c h).1 ≡ (map_results c m).1)
unfolding call_results add_result get_result free_result_by_id free_all_results
call_results_lem (adds r) h m small rel =
    let e : (h.index + 1) % 2 ^ 64 ≡ suc m.given = omega (arith, rel.0) in
    rw e (
      (
        refl,
        append-StandsFor (λ (r : QueryResult). r.index) m.given h.results m.at
            (record r { index = suc m.given }) refl rel.1,
      ),
      refl,
    )
call_results_lem (gets i) h m small rel = (rel, ap item (rel.1.1 i))
call_results_lem (frees i) h m small rel =
    let (rel', e) =
      free_found_lem i h m (find (λ (r : QueryResult). r.index) i h.results) (sym (rel.1.1 i))
        rel in
    (rel', ap freed e)
call_results_lem frees_all h m small rel = (
  (rel.0, (omega arith, λ i. refl)),
  ap freed (
      free_results_lem h.results
      ∙ sym (
          collect-StandsFor (λ (r : QueryResult). r.index) result_frees m.given h.results m.at
            rel.1)),
)

-- One call gives out at most one number.
given_lem : (c : ResultCall) (m : Items QueryResult) → (map_results c m).0.given ≤ suc m.given
given_lem (adds r) m = omega arith
given_lem (gets i) m = omega arith
given_lem (frees i) m = omega arith
given_lem frees_all m = omega arith

answers_lem :
    (cs : List ResultCall) (h : QueryResultHolder) (m : Items QueryResult)
    → m.given + length cs < 2 ^ 64
    → Results h m
    → answers call_results cs h ≡ answers map_results cs m
answers_lem [] h m small rel = refl
answers_lem (c ∷ cs) h m small rel =
    let (rel', e) = call_results_lem c h m (omega arith) rel in
    let rest =
      answers_lem cs (call_results c h).0 (map_results c m).0 (omega (arith, given_lem c m)) rel' in
    ap (λ x. x ∷ answers call_results cs (call_results c h).0) e
    ∙ ap (λ xs. (map_results c m).1 ∷ xs) rest

-- A new holder of query results answers every sequence of fewer than 2 ^ 64 calls as a map does:
-- `Add` gives out the numbers 1, 2, 3, …, `Get` answers the result with the number as it was added
-- or nil, `FreeResultByID` releases the result with the number and forgets it, and does nothing for
-- another number, and `FreeAll` releases every result that is left, in the order of their numbers.
pub query_result_holder_refines :
    (cs : List ResultCall)
    → length cs < 2 ^ 64
    → answers call_results cs new_query_result_holder ≡ answers map_results cs no_items
query_result_holder_refines cs small =
    answers_lem cs new_query_result_holder no_items (omega arith) (refl, (omega arith, λ i. refl))
