-- ===== src/ReqId/Runs.antt =====
-- Runs of tools/generator/reqid.go.
use taosadapter.Common.{◌/◌, ◌%◌, ◌^◌, ◌<◌, ◌≡◌, ◌≢◌, arith}
use taosadapter.ReqId.{last_id, get_req_id}
use taosadapter.ReqId.Distinct.{given, get_req_id-differ}

-- The counter is at its end: the first call starts again.
get_req_id-differ_example :
    (given (get_req_id 5) 0 last_id ≢ given (get_req_id 5) 3 last_id)
    × (given (get_req_id 5) 0 last_id / 2 ^ 56 ≡ 5)
    × (0 < given (get_req_id 5) 0 last_id % 2 ^ 56)
get_req_id-differ_example =
    get_req_id-differ 5 last_id 0 3 (omega arith) (omega arith) (omega arith)
