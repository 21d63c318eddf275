-- ===== src/ReqId.antt =====
-- tools/generator/reqid.go: the identifiers of requests. A counter is the number that its atomic
-- operations keep; the calls follow one another.
pub mod Distinct
pub mod Runs
use taosadapter.Common.{ℕ, ◌+◌, ◌*◌, ◌%◌, ◌^◌, ltb, if◌then◌else◌}

-- 0x00ffffffffffffff
abbrev pub last_id : ℕ
last_id = 0xff_ffff_ffff_ffff

-- `GetReqID`: the counter behind the call, which starts again at 1.
pub next_id : ℕ → ℕ
next_id increment = if ltb last_id (increment + 1) then 1 else increment + 1

-- `int64(config.Conf.InstanceID)<<56 | id`
pub get_req_id : ℕ → ℕ → ℕ × ℕ
unfolding next_id
get_req_id instance_id increment = let id = next_id increment in (id, instance_id * 2 ^ 56 + id)

-- `GetUploadKeeperReqID`; the counter is a uint32.
pub get_upload_keeper_req_id : ℕ → ℕ → ℕ × ℕ
get_upload_keeper_req_id instance_id increment =
    let id = (increment + 1) % 2 ^ 32 in (id, instance_id * 2 ^ 56 + id * 2 ^ 8)
