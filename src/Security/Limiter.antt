-- ===== src/Security/Limiter.antt =====
-- app/security/middleware.py: the limit on failed authentications of one client address.
-- Times are microseconds of the monotonic clock.
pub mod Buckets
pub mod Lockout
use unifi_netwatcher.Base.{
  ltb, leb, if◌then◌else◌, length, is_empty, Text, text_eq, ℕ, ◌+◌, ◌*◌, ◌^◌, Bool, false, List, [],
  ◌∷◌, ◌++◌,
}

abbrev pub auth_fail_limit : ℕ
auth_fail_limit = 10

abbrev pub auth_fail_window : ℕ
auth_fail_window = 60 * 10 ^ 6

-- `_auth_failures`: the times of the failures of each address, the oldest first. An address that
-- is not listed has none.
abbrev pub Failures : Type 0
Failures = List (Text × List ℕ)

unfoldable pub bucket_of : Text → Failures → List ℕ
bucket_of ip [] = []
bucket_of ip ((k, ts) ∷ rest) = let older = bucket_of ip rest in if text_eq k ip then ts else older

unfoldable pub remove_bucket : Text → Failures → Failures
remove_bucket ip [] = []
remove_bucket ip ((k, ts) ∷ rest) =
    let others = remove_bucket ip rest in if text_eq k ip then others else (k, ts) ∷ others

unfoldable pub put_bucket : Text → List ℕ → Failures → Failures
put_bucket ip ts failures = (ip, ts) ∷ remove_bucket ip failures

-- `while bucket and bucket[0] < cutoff: bucket.popleft()`, with `cutoff = now - window`
unfoldable pub drop_old : ℕ → List ℕ → List ℕ
drop_old now [] = []
drop_old now (x ∷ xs) =
    let rest = drop_old now xs in if ltb (x + auth_fail_window) now then rest else x ∷ xs

-- The pruned bucket; the table has an entry for the address afterwards.
unfoldable pub prune_failures : Text → ℕ → Failures → List ℕ × Failures
prune_failures ip now failures =
    let kept = drop_old now (bucket_of ip failures) in (kept, put_bucket ip kept failures)

unfoldable pub auth_failures_exceeded : Text → ℕ → Failures → Bool × Failures
auth_failures_exceeded ip now failures =
    let (bucket, pruned) = prune_failures ip now failures in
    if is_empty ip then (false, failures) else (leb auth_fail_limit (length bucket), pruned)

unfoldable pub record_auth_failure : Text → ℕ → Failures → Failures
record_auth_failure ip now failures =
    let (bucket, pruned) = prune_failures ip now failures in
    if is_empty ip then failures else put_bucket ip (bucket ++ now ∷ []) pruned

unfoldable pub clear_auth_failures : Text → Failures → Failures
clear_auth_failures ip failures = remove_bucket ip failures

unfoldable pub reset_auth_failure_limiter : Failures → Failures
reset_auth_failure_limiter failures = []
