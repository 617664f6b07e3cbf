-- ===== src/Server/Sessions.antt =====
-- Which account is logged in on which connection: `lookup` of server/server.cpp under the actions of
-- server/server_dataflow.cpp and the loop over a closed connection.
use tcp_labs.Base.{
  ℕ, suc, ◌≡◌, refl, ap, ◌∙◌, Bool, true, false, ◌&&◌, List, [], ◌∷◌, Option, none, some, ◌==◌,
  if◌then◌else◌, arith,
}
use tcp_labs.Base.Maps.{Map, str_eq, find, assign, count_value, count_value-assign}
use tcp_labs.Protocol.Bytes.{Bytes}
use tcp_labs.Protocol.Structs.{
  Registion, LoginIn, SendMessage, P2pRequest, RecoverPassword, RawData, registion, login_in,
  send_message, p2p_request, recover_password, find_active_request,
}
use tcp_labs.Server.Environment.{Environment, Account, Mail, c_str}
use tcp_labs.Server.Actions.{
  Server, send, offline_message, send_rows, send_offline_message, check_password, login_in_action,
  registion_action, send_message_action, p2p_request_action, check_nickname,
  recover_password_action, send_active, find_active_action, action,
}

module _ (env : Environment) where
  -- The password of the account is the one given.
  abbrev pub has_password : LoginIn → Option Account → Bool
  has_password r none = false
  has_password r (some row) = str_eq row.password (c_str r.pass_md5)

  -- The account is on no connection, and the password is right.
  abbrev pub may_enter : Server env → LoginIn → Bool
  may_enter s r = elim (find (c_str r.account) s.lookup) [
    | some other ↦ false
    | none ↦ has_password r (env.find_account s.db (c_str r.account))
  ]

  pub send_rows-lookup :
      (rows : List Mail) (s : Server env) (conn : ℕ) (receiver : Bytes)
      → (send_rows env s conn receiver rows).lookup ≡ s.lookup
  unfolding send_rows
  send_rows-lookup [] s conn receiver = refl
  send_rows-lookup (row ∷ rows) s conn receiver =
      send_rows-lookup rows (send env s conn (offline_message env receiver row)) conn receiver

  send_offline_message-lookup :
      (s : Server env) (conn : ℕ) (receiver : Bytes)
      → (send_offline_message env s conn receiver).lookup ≡ s.lookup
  unfolding send_offline_message
  send_offline_message-lookup s conn receiver =
      send_rows-lookup (env.select_mail s.db receiver) s conn receiver

  check_password-lookup :
      (s : Server env) (conn : ℕ) (r : LoginIn) (row : Option Account)
      → (check_password env s conn r row).lookup
        ≡ (if has_password r row then assign (c_str r.account) conn s.lookup else s.lookup)
  unfolding check_password
  check_password-lookup s conn r none = refl
  check_password-lookup s conn r (some row) = grind (arith, send_offline_message-lookup)

  -- A login whose account is on no connection and whose password is right assigns the connection to
  -- the account; any other one leaves the table.
  pub login-lookup :
      (s : Server env) (conn : ℕ) (r : LoginIn)
      → (login_in_action env s conn r).lookup
        ≡ (if may_enter s r then assign (c_str r.account) conn s.lookup else s.lookup)
  unfolding login_in_action
  login-lookup s conn r =
      ground (arith, check_password-lookup s conn r (env.find_account s.db (c_str r.account)))

  -- An entered account was in the table nowhere.
  pub may_enter-none :
      (s : Server env) (r : LoginIn) → may_enter s r ≡ true → find (c_str r.account) s.lookup ≡ none
  may_enter-none s r = λ h. ground arith

  pub login-count :
      (s : Server env) (conn c : ℕ) (r : LoginIn)
      → count_value c (login_in_action env s conn r).lookup ≡ (
          if may_enter s r && (c == conn)
          then suc (count_value c s.lookup)
          else count_value c s.lookup)
  login-count s conn c r =
      ap (count_value c) (login-lookup s conn r)
      ∙ (ground (arith, may_enter-none s r, count_value-assign c conn (c_str r.account) s.lookup))

  send_active-lookup :
      (m : Map) (s : Server env) (conn : ℕ) (sender : Bytes)
      → (send_active env s conn sender m).lookup ≡ s.lookup
  unfolding send_active
  send_active-lookup [] s conn sender = refl
  send_active-lookup ((acc, other) ∷ m) s conn sender =
      send_active-lookup m _ conn sender ∙ ground arith

  pub registion-lookup :
      (s : Server env) (conn : ℕ) (r : Registion)
      → (registion_action env s conn r).lookup ≡ s.lookup
  unfolding registion_action
  registion-lookup s conn r = ground arith

  send_message-lookup :
      (s : Server env) (conn : ℕ) (r : SendMessage)
      → (send_message_action env s conn r).lookup ≡ s.lookup
  unfolding send_message_action
  send_message-lookup s conn r = ground arith

  p2p_request-lookup :
      (s : Server env) (conn : ℕ) (r : P2pRequest)
      → (p2p_request_action env s conn r).lookup ≡ s.lookup
  unfolding p2p_request_action
  p2p_request-lookup s conn r = ground arith

  check_nickname-lookup :
      (s : Server env) (conn : ℕ) (r : RecoverPassword) (row : Option Account)
      → (check_nickname env s conn r row).lookup ≡ s.lookup
  unfolding check_nickname
  check_nickname-lookup s conn r none = refl
  check_nickname-lookup s conn r (some row) = ground arith

  pub recover_password-lookup :
      (s : Server env) (conn : ℕ) (r : RecoverPassword)
      → (recover_password_action env s conn r).lookup ≡ s.lookup
  unfolding recover_password_action
  recover_password-lookup s conn r =
      ground (arith, check_nickname-lookup s conn r (env.find_account s.db (c_str r.account)))

  -- Is the message a login?
  abbrev pub is_login : RawData → Bool
  is_login (login_in r) = true
  is_login m = false

  -- The action of a message that is not a login leaves the table, if the server has that action.
  pub action-lookup :
      (s s' : Server env) (conn : ℕ) (m : RawData)
      → is_login m ≡ false
      → action env s conn m ≡ some s'
      → s'.lookup ≡ s.lookup
  unfolding action find_active_action
  action-lookup s s' conn (registion r) h e = ground (arith, registion-lookup s conn r)
  action-lookup s s' conn (login_in r) h e = absurd (ground arith)
  action-lookup s s' conn (send_message r) h e = ground (arith, send_message-lookup s conn r)
  action-lookup s s' conn (p2p_request r) h e = ground (arith, p2p_request-lookup s conn r)
  action-lookup s s' conn (recover_password r) h e =
      ground (arith, recover_password-lookup s conn r)
  action-lookup s s' conn (find_active_request r) h e =
      ground (arith, send_active-lookup s.lookup s conn (c_str r.sender))
  action-lookup s s' conn _ h e = absurd (ground arith)
