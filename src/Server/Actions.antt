-- ===== src/Server/Actions.antt =====
-- The action() of each message that the server takes, and Epoll::visitor() of server/server.cpp.
use tcp_labs.Base.{
  ℕ, ◌-◌, ◌^◌, inl, inr, List, [], ◌∷◌, Option, none, some, if◌then◌else◌, length, take,
}
use tcp_labs.Base.Maps.{Map, codes, str_eq, find, assign, erase_value}
use tcp_labs.Protocol.Bytes.{Bytes}
use tcp_labs.Protocol.Structs.{
  Registion, LoginIn, SendMessage, P2pRequest, RecoverPassword, FindActiveRequest, RawData,
  registion, op_status, login_in, login_reply, send_message, p2p_request, recover_password,
  find_active_request, find_active_reply,
}
use tcp_labs.Protocol.Dispatch.{Received, received, closed, unknown, aborted}
use tcp_labs.Server.Environment.{Environment, Account, Mail, c_str, literal, copy}

-- The status -1 as the pattern of an `int`.
abbrev pub minus_one : ℕ
minus_one = 2 ^ 32 - 1

module _ (env : Environment) where
  open env use {
    Db, insert_account, find_account, set_password, insert_mail, select_mail, delete_mail, encrypt,
    decrypt, peer_ip,
  }

  -- `lookup` has the connection of each account that is logged in. `sent` are the messages handed to
  -- send_data() with their connections, newest first.
  pub record Server : Type 0 where
    pub lookup : Map
    pub db : Db
    pub sent : List (ℕ × RawData)
    pub closed_conns : List ℕ

  abbrev pub send : Server → ℕ → RawData → Server
  send s conn m = record s { sent = (conn, m) ∷ s.sent }

  abbrev pub status : ℕ → Bytes → RawData
  status code message = op_status (record { status = code; message = literal 32 message })

  unfoldable pub registion_action : Server → ℕ → Registion → Server
  registion_action s conn r =
      elim (insert_account s.db (c_str r.account) (c_str r.pass_md5) (c_str r.nickname)) [
        | inl what ↦ send s conn (status minus_one what)
        | inr db ↦ send (record s { db = db }) conn (status 0 (codes "succceed"))
      ]

  -- The message that send_offline_message() makes of a row. Its statement selects rowid, receiver,
  -- timestamp, messagesize and message, so that column 1, which goes to `sender`, is the receiver.
  unfoldable pub offline_message : Bytes → Mail → RawData
  offline_message receiver row = send_message (record {
    sender = copy env 32 row.receiver;
    receiver = copy env 32 receiver;
    timestamp = row.timestamp;
    message = copy env 512 (decrypt (take row.messagesize row.message));
  })

  unfoldable pub send_rows : Server → ℕ → Bytes → List Mail → Server
  send_rows s conn receiver [] = s
  send_rows s conn receiver (row ∷ rows) =
      send_rows (send s conn (offline_message receiver row)) conn receiver rows

  unfoldable pub send_offline_message : Server → ℕ → Bytes → Server
  unfolding send_rows
  send_offline_message s conn receiver =
      let s' = send_rows s conn receiver (select_mail s.db receiver) in
      record s' { db = delete_mail s'.db receiver }

  -- A row of the account whose password is checked.
  unfoldable pub check_password : Server → ℕ → LoginIn → Option Account → Server
  check_password s conn r none = send s conn (status minus_one (codes "wrong account or password"))
  check_password s conn r (some row) =
      let reply = login_reply (record {
        status = 0;
        message = literal 32 (codes "login succeed");
        nickname = copy env 32 row.nickname;
      }) in
      let entered = record s { lookup = assign (c_str r.account) conn s.lookup } in
      if str_eq row.password (c_str r.pass_md5)
      then send_offline_message (send entered conn reply) conn (c_str r.account)
      else send s conn (status minus_one (codes "wrong account or password"))

  unfoldable pub login_in_action : Server → ℕ → LoginIn → Server
  unfolding check_password
  login_in_action s conn r = elim (find (c_str r.account) s.lookup) [
    | some other ↦ send s conn (status minus_one (codes "Logged in elsewhwere"))
    | none ↦ check_password s conn r (find_account s.db (c_str r.account))
  ]

  -- `sizeof(plain.size() + 1)` is the size of a `size_t`, 8.
  unfoldable pub stored_text : Bytes → Bytes
  stored_text plain = encrypt (copy env 8 plain)

  unfoldable pub send_message_action : Server → ℕ → SendMessage → Server
  unfolding stored_text
  send_message_action s conn r = elim (find (c_str r.receiver) s.lookup) [
    | some receiver_conn ↦ send s receiver_conn (send_message r)
    | none ↦
        let encrypted = stored_text (c_str r.message) in
        record s {
          db =
              insert_mail s.db (c_str r.sender) (c_str r.receiver) r.timestamp (length encrypted)
                encrypted;
        }
  ]

  unfoldable pub p2p_request_action : Server → ℕ → P2pRequest → Server
  p2p_request_action s conn r = elim (find (c_str r.receiver) s.lookup) [
    | some receiver_conn ↦
        send s receiver_conn (p2p_request (record r { listener_ip = peer_ip conn }))
    | none ↦ send s conn (status minus_one (codes "User offline"))
  ]

  unfoldable pub check_nickname : Server → ℕ → RecoverPassword → Option Account → Server
  check_nickname s conn r none = send s conn (status minus_one (codes "wrong account or email"))
  check_nickname s conn r (some row) =
      let changed = set_password s.db (c_str r.account) (c_str r.new_pass_md5) row.salt in
      if str_eq row.nickname (c_str r.nickname)
      then send (record s { db = changed }) conn (status 0 (codes "recover succeed"))
      else send s conn (status minus_one (codes "wrong account or email"))

  unfoldable pub recover_password_action : Server → ℕ → RecoverPassword → Server
  unfolding check_nickname
  recover_password_action s conn r = elim (find (c_str r.account) s.lookup) [
    | some other ↦ send s conn (status minus_one (codes "Logged in elsewhwere"))
    | none ↦ check_nickname s conn r (find_account s.db (c_str r.account))
  ]

  -- The loop over `lookup`.
  unfoldable pub send_active : Server → ℕ → Bytes → Map → Server
  send_active s conn sender [] = s
  send_active s conn sender ((acc, other) ∷ m) =
      let reply = find_active_reply (record { peer = copy env 32 acc; is_active = 1 }) in
      send_active (if str_eq acc sender then s else send s conn reply) conn sender m

  unfoldable pub find_active_action : Server → ℕ → FindActiveRequest → Server
  unfolding send_active
  find_active_action s conn r = send_active s conn (c_str r.sender) s.lookup

  -- A message of a type that is not the server's has no action there.
  unfoldable pub action : Server → ℕ → RawData → Option Server
  unfolding registion_action login_in_action send_message_action p2p_request_action
      recover_password_action find_active_action
  action s conn (registion r) = some (registion_action s conn r)
  action s conn (login_in r) = some (login_in_action s conn r)
  action s conn (send_message r) = some (send_message_action s conn r)
  action s conn (p2p_request r) = some (p2p_request_action s conn r)
  action s conn (recover_password r) = some (recover_password_action s conn r)
  action s conn (find_active_request r) = some (find_active_action s conn r)
  action s conn m = none

  -- The connection is closed: its first account is logged out.
  unfoldable pub close_conn : Server → ℕ → Server
  close_conn s conn = record s {
    lookup = erase_value conn s.lookup;
    closed_conns = conn ∷ s.closed_conns;
  }

  -- visitor(), on what get_type() and read_data() give. `none` is the end of the process.
  unfoldable pub visitor : Server → ℕ → Received → Option Server
  unfolding action close_conn
  visitor s conn closed = some (close_conn s conn)
  visitor s conn (received m rest) = action s conn m
  visitor s conn unknown = none
  visitor s conn aborted = none
