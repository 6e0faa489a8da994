-- ===== src/Unifi/Client/Requests.antt =====
-- What the client sends to the controller, and what it takes a success for.
use unifi_netwatcher.Base.{
  ◌==◌, Bool-cases, if-both, length, length-append, Text, suc, ◌+◌, ◌≤◌, ◌≡◌, refl, ap, ◌∙◌, inl,
  inr, Bool, true, false, ◌||◌, Option, none, some, List, [], ◌∷◌, ◌++◌, arith,
}
use unifi_netwatcher.Unifi.Client.{
  Call, is_success, send_with_retry, stamgr_cmd, login, Response, Session, ensure_login, send,
  again_after_login, retry_unauthorized, done_of, command_after, post_stamgr, after_login,
  post_login,
}
use mathlib.Core.Option.{some-injective}

-- The last request sent.
abbrev pub LastSent : Call → Session → Type 0
LastSent c s = (earlier : List Call) × (s.sent ≡ earlier ++ c ∷ [])

unauthorized_fails : (r : Response) → (r.status_code == 401) ≡ true → is_success r ≡ true → ⊥
unfolding is_success
unauthorized_fails r h g = ground arith

send-LastSent : (c : Call) (s : Session) → LastSent c (send c s).1
unfolding send
send-LastSent c s = (s.sent, refl)

again-LastSent :
    (c : Call) (r r' : Response) (o : Bool × Session)
    → (r.status_code == 401) ≡ true
    → (again_after_login c r o).0 ≡ some r'
    → is_success r' ≡ true
    → LastSent c (again_after_login c r o).1
again-LastSent c r r' (true, s) h q g = send-LastSent c s
again-LastSent c r r' (false, s) h q g =
    absurd (unauthorized_fails r h (ap is_success (some-injective r r' q) ∙ g))

retry-LastSent :
    (c : Call) (r' : Response) (o : Option Response × Session)
    → LastSent c o.1
    → (retry_unauthorized c o).0 ≡ some r'
    → is_success r' ≡ true
    → LastSent c (retry_unauthorized c o).1
retry-LastSent c r' (none, s) k q g = k
retry-LastSent c r' (some r, s) k q g = elim (Bool-cases (r.status_code == 401)) [
  | inl e ↦ rw e (again-LastSent c r r' (login s) e (rw e at q) g)
  | inr e ↦ rw e k
]

done-LastSent :
    (c : Call) (o : Option Response × Session)
    → ((r : Response) → o.0 ≡ some r → is_success r ≡ true → LastSent c o.1)
    → (done_of o).0 ≡ true
    → LastSent c (done_of o).1
done-LastSent c (none, s) k h = absurd (ground arith)
done-LastSent c (some r, s) k h = k r refl h

command-LastSent :
    (cmd mac : Text) (o : Bool × Session)
    → (command_after cmd mac o).0 ≡ true
    → LastSent (post_stamgr cmd mac) (command_after cmd mac o).1
unfolding send_with_retry
command-LastSent cmd mac (false, s) h = absurd (ground arith)
command-LastSent cmd mac (true, s) h =
    let c = post_stamgr cmd mac in
    done-LastSent c (send_with_retry c s)
      (λ r q g. retry-LastSent c r (send c s) (send-LastSent c s) q g) h

-- A command is reported as done only if it was sent, and was the last thing sent, unless commands
-- are simulated: then nothing is sent and every command is reported as done.
pub stamgr_cmd-LastSent :
    (cmd mac : Text) (s : Session)
    → (((s.mock_mode || s.dry_run_blocks) ≡ true) → stamgr_cmd cmd mac s ≡ (true, s))
      × (((s.mock_mode || s.dry_run_blocks) ≡ false)
          → (stamgr_cmd cmd mac s).0 ≡ true
          → LastSent (post_stamgr cmd mac) (stamgr_cmd cmd mac s).1)
unfolding stamgr_cmd
stamgr_cmd-LastSent cmd mac s =
    (λ e. rw e refl, λ e h. rw e (command-LastSent cmd mac (ensure_login s) (rw e at h)))

length-snoc : (xs : List Call) (c : Call) → length (xs ++ c ∷ []) ≡ suc (length xs)
length-snoc xs c = omega (arith, length-append xs (c ∷ []))

after_login-sent : (o : Option Response × Session) → (after_login o).1.sent ≡ o.1.sent
after_login-sent (none, s) = refl
after_login-sent (some r, s) =
    if-both (λ (o : Bool × Session). o.1.sent ≡ s.sent) (is_success r) refl refl

login-sent : (s : Session) → length (login s).1.sent ≤ suc (length s.sent)
unfolding login send
login-sent s =
    if-both (λ (o : Bool × Session). length o.1.sent ≤ suc (length s.sent)) s.mock_mode
      (omega arith)
      (omega
        (arith, ap length (after_login-sent (send post_login s)), length-snoc s.sent post_login))

again-sent :
    (c : Call) (r : Response) (o : Bool × Session)
    → length (again_after_login c r o).1.sent ≤ suc (length o.1.sent)
unfolding send
again-sent c r (true, s) = omega (arith, length-snoc s.sent c)
again-sent c r (false, s) = omega arith

retry-sent :
    (c : Call) (o : Option Response × Session)
    → length (retry_unauthorized c o).1.sent ≤ 2 + length o.1.sent
retry-sent c (none, s) = omega arith
retry-sent c (some r, s) = elim (Bool-cases (r.status_code == 401)) [
  | inl e ↦ rw e (omega (arith, again-sent c r (login s), login-sent s))
  | inr e ↦ rw e (omega arith)
]

send_with_retry-sent :
    (c : Call) (s : Session) → length (send_with_retry c s).1.sent ≤ 3 + length s.sent
unfolding send_with_retry send
send_with_retry-sent c s = omega (arith, retry-sent c (send c s), length-snoc s.sent c)

done-sent : (o : Option Response × Session) → (done_of o).1 ≡ o.1
done-sent (none, s) = refl
done-sent (some r, s) = refl

command-sent :
    (cmd mac : Text) (o : Bool × Session)
    → length (command_after cmd mac o).1.sent ≤ 3 + length o.1.sent
command-sent cmd mac (false, s) = omega arith
command-sent cmd mac (true, s) =
    rw (done-sent (send_with_retry (post_stamgr cmd mac) s))
      (send_with_retry-sent (post_stamgr cmd mac) s)

ensure_login-sent : (s : Session) → length (ensure_login s).1.sent ≤ suc (length s.sent)
unfolding ensure_login
ensure_login-sent s =
    if-both (λ (o : Bool × Session). length o.1.sent ≤ suc (length s.sent)) s.logged_in
      (omega arith) (login-sent s)

-- A command sends at most four requests, whatever the controller answers: a login and the command,
-- and once more a login and the command.
pub stamgr_cmd-sent :
    (cmd mac : Text) (s : Session) → length (stamgr_cmd cmd mac s).1.sent ≤ 4 + length s.sent
unfolding stamgr_cmd
stamgr_cmd-sent cmd mac s = elim (Bool-cases (s.mock_mode || s.dry_run_blocks)) [
  | inl e ↦ rw e (omega arith)
  | inr e ↦ rw e (omega (arith, command-sent cmd mac (ensure_login s), ensure_login-sent s))
]
