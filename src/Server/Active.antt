-- ===== src/Server/Active.antt =====
-- FindActiveRequest::action() of server/server_dataflow.cpp: the accounts that are logged in.
use tcp_labs.Base.{ℕ, ◌≡◌, refl, List, [], ◌∷◌, if◌then◌else◌, arith}
use tcp_labs.Base.Maps.{Map, str_eq}
use tcp_labs.Protocol.Bytes.{Bytes}
use tcp_labs.Protocol.Structs.{FindActiveRequest, RawData, find_active_reply}
use tcp_labs.Server.Environment.{Environment, c_str, copy}
use tcp_labs.Server.Actions.{Server, send, send_active, find_active_action}

-- The accounts of a table but one, in the order of the table.
unfoldable pub others : Bytes → Map → List Bytes
others sender [] = []
others sender ((acc, conn) ∷ m) =
    let rest = others sender m in if str_eq acc sender then rest else acc ∷ rest

module _ (env : Environment) where
  -- One reply to a connection for each account, the last one first.
  unfoldable pub replies_before : ℕ → List Bytes → List (ℕ × RawData) → List (ℕ × RawData)
  replies_before conn [] sent = sent
  replies_before conn (acc ∷ accs) sent =
      let reply = find_active_reply (record { peer = copy env 32 acc; is_active = 1 }) in
      replies_before conn accs ((conn, reply) ∷ sent)

  send_active_lem :
      (m : Map) (s : Server env) (conn : ℕ) (sender : Bytes)
      → send_active env s conn sender m
        ≡ record s { sent = replies_before conn (others sender m) s.sent }
  unfolding send_active others replies_before
  send_active_lem [] s conn sender = refl
  send_active_lem ((acc, other) ∷ m) s conn sender =
      let reply = find_active_reply (record { peer = copy env 32 acc; is_active = 1 }) in
      let skipped = send_active_lem m s conn sender in
      let replied = send_active_lem m (send env s conn reply) conn sender in
      ground (arith, skipped, replied)

  -- A request is answered with one reply for each account in the table but that of its sender, in the
  -- order of the table, on the connection that it came on, and changes nothing else.
  pub find_active_action_lem :
      (s : Server env) (conn : ℕ) (r : FindActiveRequest)
      → find_active_action env s conn r
        ≡ record s { sent = replies_before conn (others (c_str r.sender) s.lookup) s.sent }
  unfolding find_active_action
  find_active_action_lem s conn r = send_active_lem s.lookup s conn (c_str r.sender)
