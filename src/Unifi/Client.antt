-- ===== src/Unifi/Client.antt =====
-- app/unifi/client.py: the session with the controller.
pub mod Requests
use unifi_netwatcher.Base.{
  ltb, leb, ◌==◌, if◌then◌else◌, drop, Text, t, ℕ, Bool, true, false, ◌&&◌, ◌||◌, Option, none,
  some, List, [], ◌∷◌, ◌++◌,
}
use unifi_netwatcher.Models.Values.{Json, arr, nil, has_key, get}

-- A request that the client sends.
pub data Call : Type 0 where
  post_login get_sta : Call
  post_stamgr : Text → Text → Call

-- A response: its status, and what `r.json()` gives, if it does not raise.
pub record Response : Type 0 where
  pub status_code : ℕ
  pub json : Option Json

-- The client, with the responses that the controller will give, in order: `none` is an exception
-- of `httpx`, and so is every call after the last. `sent` holds the requests, the oldest first.
pub record Session : Type 0 where
  pub mock_mode : Bool
  pub dry_run_blocks : Bool
  pub logged_in : Bool
  pub replies : List (Option Response)
  pub sent : List Call

-- `httpx` raises for every status but 2xx.
unfoldable pub is_success : Response → Bool
is_success r = leb 200 r.status_code && ltb r.status_code 300

abbrev next_reply : List (Option Response) → Option Response
next_reply [] = none
next_reply (r ∷ rest) = r

unfoldable pub send : Call → Session → Option Response × Session
send c s = (next_reply s.replies, record s { replies = drop 1 s.replies; sent = s.sent ++ c ∷ [] })

abbrev after_login : Option Response × Session → Bool × Session
after_login (none, s) = (false, s)
after_login (some r, s) = if is_success r then (true, record s { logged_in = true }) else (false, s)

unfoldable pub login : Session → Bool × Session
login s =
    let asked = after_login (send post_login s) in
    if s.mock_mode then (true, record s { logged_in = true }) else asked

-- `if not self._logged_in and not self.login()`, negated
unfoldable pub ensure_login : Session → Bool × Session
ensure_login s = let asked = login s in if s.logged_in then (true, s) else asked

abbrev again_after_login : Call → Response → Bool × Session → Option Response × Session
again_after_login c r (true, s) = send c s
again_after_login c r (false, s) = (some r, s)

abbrev retry_unauthorized : Call → Option Response × Session → Option Response × Session
retry_unauthorized c (none, s) = (none, s)
retry_unauthorized c (some r, s) =
    let again = again_after_login c r (login s) in
    if r.status_code == 401 then again else (some r, s)

-- A request, and again after a login if the response is 401.
unfoldable pub send_with_retry : Call → Session → Option Response × Session
send_with_retry c s = retry_unauthorized c (send c s)

abbrev data_of : Json → Json
data_of (Json.obj fs) = if has_key fs (t "data") then get fs (t "data") else arr nil
data_of _ = arr nil

abbrev body_of : Option Json → Json
body_of none = arr nil
body_of (some j) = data_of j

abbrev clients_of : Option Response × Session → Json × Session
clients_of (none, s) = (arr nil, s)
clients_of (some r, s) = (if is_success r then body_of r.json else arr nil, s)

abbrev clients_after : Bool × Session → Json × Session
clients_after (false, s) = (arr nil, s)
clients_after (true, s) = clients_of (send_with_retry get_sta s)

-- `mock_data` is what `_get_mock_data` reads from its file.
unfoldable pub get_clients : Json → Session → Json × Session
get_clients mock_data s =
    let asked = clients_after (ensure_login s) in if s.mock_mode then (mock_data, s) else asked

abbrev done_of : Option Response × Session → Bool × Session
done_of (none, s) = (false, s)
done_of (some r, s) = (is_success r, s)

abbrev command_after : Text → Text → Bool × Session → Bool × Session
command_after cmd mac (false, s) = (false, s)
command_after cmd mac (true, s) = done_of (send_with_retry (post_stamgr cmd mac) s)

unfoldable pub stamgr_cmd : Text → Text → Session → Bool × Session
stamgr_cmd cmd mac s =
    let asked = command_after cmd mac (ensure_login s) in
    if s.mock_mode || s.dry_run_blocks then (true, s) else asked

unfoldable pub block_client : Text → Session → Bool × Session
block_client mac s = stamgr_cmd (t "block-sta") mac s

unfoldable pub unblock_client : Text → Session → Bool × Session
unblock_client mac s = stamgr_cmd (t "unblock-sta") mac s
