-- ===== src/Block/Params/Runs.antt =====
-- Calls on `Param` and `ColumnType` (driver/common/param) at concrete inputs.
use taosadapter.Common.{◌≡◌, true, [], ◌∷◌}
use taosadapter.Block.Params.{new_param, get_values}
use taosadapter.Block.Params.Calls.{run_all, filled, get_values-run_all}
use taosadapter.Block.Params.Calls.Call.{bool, null, tinyint}

-- One call more than there are places, and a value that does not fit its type.
get_values-run_all_example :
    get_values (run_all (tinyint 300 ∷ null ∷ bool true ∷ []) (new_param 2))
    ≡ filled 2 (tinyint 300 ∷ null ∷ bool true ∷ [])
get_values-run_all_example = get_values-run_all 2 (tinyint 300 ∷ null ∷ bool true ∷ [])
