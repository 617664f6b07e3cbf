-- ===== src/Server/Sending.antt =====
-- What holds of every message that the server sends, when it holds of those of the types that a client
-- takes on the connections at hand.
use tcp_labs.Base.{
  ℕ, ◌≡◌, refl, inl, inr, Bool, true, false, List, [], ◌∷◌, Option, none, some, if◌then◌else◌,
  arith,
}
use mathlib.Core.Option.{some-injective}
use mathlib.Core.Path.{subst}
use tcp_labs.Base.Cases.{option-cases, sum-cases}
use tcp_labs.Base.Maps.{Map, str_eq, find}
use tcp_labs.Protocol.Bytes.{Bytes}
use tcp_labs.Protocol.Structs.{
  Registion, LoginIn, SendMessage, P2pRequest, RecoverPassword, RawData, registion, login_in,
  send_message, p2p_request, recover_password, find_active_request, type_id,
}
use tcp_labs.Protocol.Dispatch.{client, is_new_case, Received, received, closed}
use tcp_labs.Server.Environment.{Environment, Account, Mail, c_str}
use tcp_labs.Server.Actions.{
  Server, send, offline_message, send_rows, send_offline_message, check_password, login_in_action,
  registion_action, send_message_action, p2p_request_action, check_nickname,
  recover_password_action, send_active, find_active_action, action, close_conn, visitor,
}
use tcp_labs.Server.Mail.{entered}

-- What every message sent so far has, by its connection and its contents.
abbrev pub All : (ℕ → RawData → Type 0) → List (ℕ × RawData) → Type 0
All P [] = Unit {0}
All P ((conn, m) ∷ ms) = P conn m × All P ms

-- A connection on which every message of a type that a client takes has it.
abbrev pub Allows : (ℕ → RawData → Type 0) → ℕ → Type 0
Allows P conn = (m : RawData) → is_new_case client (type_id m) ≡ true → P conn m

module _ (env : Environment) (P : ℕ → RawData → Type 0) where
  send_rows-All :
      (rows : List Mail) (s : Server env) (conn : ℕ) (receiver : Bytes)
      → Allows P conn
      → All P s.sent
      → All P (send_rows env s conn receiver rows).sent
  unfolding send_rows offline_message is_new_case type_id
  send_rows-All [] s conn receiver here h = h
  send_rows-All (row ∷ rows) s conn receiver here h =
      send_rows-All rows (send env s conn (offline_message env receiver row)) conn receiver here
        (here _ refl, h)

  if-All :
      (b : Bool) (s t : Server env) → All P s.sent → All P t.sent → All P (if b then s else t).sent
  if-All true s t h k = h
  if-All false s t h k = k

  send_active-All :
      (m : Map) (s : Server env) (conn : ℕ) (sender : Bytes)
      → Allows P conn
      → All P s.sent
      → All P (send_active env s conn sender m).sent
  unfolding send_active is_new_case type_id
  send_active-All [] s conn sender here h = h
  send_active-All ((acc, other) ∷ m) s conn sender here h =
      send_active-All m _ conn sender here (if-All (str_eq acc sender) s _ h (here _ refl, h))

  registion-All :
      (s : Server env) (conn : ℕ) (r : Registion)
      → Allows P conn
      → All P s.sent
      → All P (registion_action env s conn r).sent
  unfolding registion_action is_new_case type_id
  registion-All s conn r here h =
      elim (sum-cases
        (env.insert_account s.db (c_str r.account) (c_str r.pass_md5) (c_str r.nickname))) [
          | inl (what, e) ↦ rw (e, All) (here _ refl, h)
          | inr (db, e) ↦ rw (e, All) (here _ refl, h)
        ]

  check_password-All :
      (s : Server env) (conn : ℕ) (r : LoginIn) (row : Option Account)
      → Allows P conn
      → All P s.sent
      → All P (check_password env s conn r row).sent
  unfolding check_password send_offline_message is_new_case type_id
  check_password-All s conn r none here h = (here _ refl, h)
  check_password-All s conn r (some row) here h =
      if-All (str_eq row.password (c_str r.pass_md5)) _ _
        (send_rows-All (env.select_mail s.db (c_str r.account)) (entered env s conn r row) conn
          (c_str r.account) here (here _ refl, h))
        (here _ refl, h)

  login-All :
      (s : Server env) (conn : ℕ) (r : LoginIn)
      → Allows P conn
      → All P s.sent
      → All P (login_in_action env s conn r).sent
  unfolding login_in_action is_new_case type_id
  login-All s conn r here h = elim (option-cases (find (c_str r.account) s.lookup)) [
    | inl e ↦
        rw (e, All) (check_password-All s conn r (env.find_account s.db (c_str r.account)) here h)
    | inr (other, e) ↦ rw (e, All) (here _ refl, h)
  ]

  send_message-All :
      (s : Server env) (conn : ℕ) (r : SendMessage)
      → Allows P conn
      → ((k : Bytes) (c : ℕ) → find k s.lookup ≡ some c → Allows P c)
      → All P s.sent
      → All P (send_message_action env s conn r).sent
  unfolding send_message_action is_new_case type_id
  send_message-All s conn r here there h = elim (option-cases (find (c_str r.receiver) s.lookup)) [
    | inl e ↦ rw (e, All) h
    | inr (other, e) ↦ rw (e, All) (there (c_str r.receiver) other e _ refl, h)
  ]

  p2p_request-All :
      (s : Server env) (conn : ℕ) (r : P2pRequest)
      → Allows P conn
      → ((k : Bytes) (c : ℕ) → find k s.lookup ≡ some c → Allows P c)
      → All P s.sent
      → All P (p2p_request_action env s conn r).sent
  unfolding p2p_request_action is_new_case type_id
  p2p_request-All s conn r here there h = elim (option-cases (find (c_str r.receiver) s.lookup)) [
    | inl e ↦ rw (e, All) (here _ refl, h)
    | inr (other, e) ↦ rw (e, All) (there (c_str r.receiver) other e _ refl, h)
  ]

  check_nickname-All :
      (s : Server env) (conn : ℕ) (r : RecoverPassword) (row : Option Account)
      → Allows P conn
      → All P s.sent
      → All P (check_nickname env s conn r row).sent
  unfolding check_nickname is_new_case type_id
  check_nickname-All s conn r none here h = (here _ refl, h)
  check_nickname-All s conn r (some row) here h =
      if-All (str_eq row.nickname (c_str r.nickname)) _ _ (here _ refl, h) (here _ refl, h)

  recover_password-All :
      (s : Server env) (conn : ℕ) (r : RecoverPassword)
      → Allows P conn
      → All P s.sent
      → All P (recover_password_action env s conn r).sent
  unfolding recover_password_action is_new_case type_id
  recover_password-All s conn r here h = elim (option-cases (find (c_str r.account) s.lookup)) [
    | inl e ↦
        rw (e, All) (check_nickname-All s conn r (env.find_account s.db (c_str r.account)) here h)
    | inr (other, e) ↦ rw (e, All) (here _ refl, h)
  ]

  some-All : (s s' : Server env) → some s ≡ some s' → All P s.sent → All P s'.sent
  some-All s s' e h = subst (λ t. All P t.sent) (some-injective s s' e) h

  -- visitor() sends on the connection that it is called for and on those of the table.
  pub visitor-All :
      (s s' : Server env) (conn : ℕ) (got : Received)
      → Allows P conn
      → ((k : Bytes) (c : ℕ) → find k s.lookup ≡ some c → Allows P c)
      → All P s.sent
      → visitor env s conn got ≡ some s'
      → All P s'.sent
  unfolding visitor action close_conn find_active_action
  visitor-All s s' conn closed here there h e = some-All _ s' e h
  visitor-All s s' conn (received (registion r) rest) here there h e =
      some-All _ s' e (registion-All s conn r here h)
  visitor-All s s' conn (received (login_in r) rest) here there h e =
      some-All _ s' e (login-All s conn r here h)
  visitor-All s s' conn (received (send_message r) rest) here there h e =
      some-All _ s' e (send_message-All s conn r here there h)
  visitor-All s s' conn (received (p2p_request r) rest) here there h e =
      some-All _ s' e (p2p_request-All s conn r here there h)
  visitor-All s s' conn (received (recover_password r) rest) here there h e =
      some-All _ s' e (recover_password-All s conn r here h)
  visitor-All s s' conn (received (find_active_request r) rest) here there h e =
      some-All _ s' e (send_active-All s.lookup s conn (c_str r.sender) here h)
  visitor-All s s' conn _ here there h e = absurd (ground arith)
