-- ===== src/ReqId/Distinct.antt =====
-- Which identifiers of tools/generator/reqid.go are alike.
use taosadapter.Common.{ℕ, zero, suc, ◌+◌, ◌*◌, ◌/◌, ◌%◌, ◌^◌, ◌≤◌, ◌<◌, ◌≡◌, ◌≢◌, ap, arith}
use taosadapter.ReqId.{last_id, next_id, get_req_id, get_upload_keeper_req_id}

-- The counter after `k` calls of a function that gives the counter first.
abbrev pub after : (ℕ → ℕ × ℕ) → ℕ → ℕ → ℕ
after call zero c = c
after call (suc k) c = (call (after call k c)).0

-- The identifier that call number `k` gives, from 0 on.
abbrev pub given : (ℕ → ℕ × ℕ) → ℕ → ℕ → ℕ
given call k c = (call (after call k c)).1

after_lem : (n k c : ℕ) → c ≤ last_id → after (get_req_id n) (suc k) c ≡ (c + k) % last_id + 1
unfolding get_req_id next_id
after_lem n zero c h = ground arith
after_lem n (suc k) c h = ground (arith, after_lem n k c h)

given_lem :
    (n k c : ℕ) → c ≤ last_id → given (get_req_id n) k c ≡ n * 2 ^ 56 + ((c + k) % last_id + 1)
unfolding get_req_id
given_lem n k c h = ap (λ (x : ℕ). n * 2 ^ 56 + x) (after_lem n k c h)

-- `GetReqID`, in calls that follow one another: the top byte of an identifier is the number of the
-- instance and the rest is not 0, and two of 2 ^ 56 - 1 calls in a row give different identifiers,
-- also where the counter starts again.
pub get_req_id-differ :
    (n c i j : ℕ)
    → c ≤ last_id
    → i < j
    → j < i + last_id
    → (given (get_req_id n) i c ≢ given (get_req_id n) j c)
      × (given (get_req_id n) i c / 2 ^ 56 ≡ n)
      × (0 < given (get_req_id n) i c % 2 ^ 56)
get_req_id-differ n c i j h order near = (
  λ e. omega (arith, given_lem n i c h, given_lem n j c h, e),
  omega (arith, given_lem n i c h),
  omega (arith, given_lem n i c h),
)

after_upload_lem : (n k c : ℕ) → after (get_upload_keeper_req_id n) (suc k) c ≡ (c + k + 1) % 2 ^ 32
unfolding get_upload_keeper_req_id
after_upload_lem n zero c = omega arith
after_upload_lem n (suc k) c = omega (arith, after_upload_lem n k c)

given_upload_lem :
    (n k c : ℕ) → given (get_upload_keeper_req_id n) k c ≡ n * 2 ^ 56 + (c + k + 1) % 2 ^ 32 * 2 ^ 8
unfolding get_upload_keeper_req_id
given_upload_lem n k c = ap (λ (x : ℕ). n * 2 ^ 56 + x * 2 ^ 8) (after_upload_lem n k c)

-- `GetUploadKeeperReqID`, in calls that follow one another: the top byte is the number of the
-- instance, the next two bytes and the last one are 0, and two of 2 ^ 32 calls in a row give
-- different identifiers.
get_upload_keeper_req_id-differ :
    (n c i j : ℕ)
    → i < j
    → j < i + 2 ^ 32
    → (given (get_upload_keeper_req_id n) i c ≢ given (get_upload_keeper_req_id n) j c)
      × (given (get_upload_keeper_req_id n) i c / 2 ^ 56 ≡ n)
      × (given (get_upload_keeper_req_id n) i c / 2 ^ 40 % 2 ^ 16 ≡ 0)
      × (given (get_upload_keeper_req_id n) i c % 2 ^ 8 ≡ 0)
get_upload_keeper_req_id-differ n c i j order near = (
  λ e. omega (arith, given_upload_lem n i c, given_upload_lem n j c, e),
  omega (arith, given_upload_lem n i c),
  omega (arith, given_upload_lem n i c),
  omega (arith, given_upload_lem n i c),
)
