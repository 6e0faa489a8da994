-- ===== src/Security/Access/Limits.antt =====
-- What the rate limit means for a request.
use unifi_netwatcher.Base.{
  length, is_empty, All, Text, ok, ℕ, ◌≤◌, ◌≡◌, ◌≢◌, true, false, List, arith,
}
use unifi_netwatcher.Library.Ip.{IpLibrary}
use unifi_netwatcher.Security.Limiter.{auth_fail_limit}
use unifi_netwatcher.Security.Access.{
  Deployment, SecurityPolicy, Failures, Request, dispatch, is_public_path, requires_auth,
  effective_client_ip, call_next,
}
use unifi_netwatcher.Security.Limiter.Lockout.{record_all, ten_failures_exceed}
use unifi_netwatcher.Security.Limiter.Buckets.{IsRecent}
use unifi_netwatcher.Security.Access.Gates.{dispatch-Passed}

module _ (ip : IpLibrary) (d : Deployment) (p : SecurityPolicy) where
  -- After ten failures of the client's address within the last minute, no credentials, correct
  -- ones included, make a request reach a route that requires authentication.
  pub locked_out :
      (r : Request) (now later : ℕ) (xs : List ℕ) (f : Failures) (actor : Text)
      → is_public_path r.path ≡ false
      → requires_auth ip d p r ≡ true
      → is_empty (effective_client_ip r) ≡ false
      → All (λ x. (x ≤ now) × IsRecent now x) xs
      → auth_fail_limit ≤ length xs
      → (dispatch ip d p r now later (record_all (effective_client_ip r) xs f)).0
        ≢ ok (call_next actor)
  locked_out r now later xs f actor path auth ne recent n h =
      let open_limit = ((dispatch-Passed ip d p r now later _ actor path h).auth auth).0 in
      let exceeded = ten_failures_exceed (effective_client_ip r) now xs f ne recent n in
      absurd (ground (arith, open_limit, exceeded))
