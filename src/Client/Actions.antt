-- ===== src/Client/Actions.antt =====
-- The action() of each message that the client takes, and Epoll::visitor() of
-- client/client_dataflow.cpp.
use tcp_labs.Base.{ℕ, ◌-◌, ◌^◌, List, ◌∷◌, Option, none, some, ◌==◌, if◌then◌else◌}
use tcp_labs.Base.Maps.{Map, find, assign, erase_value}
use tcp_labs.Protocol.Bytes.{Bytes}
use tcp_labs.Protocol.Structs.{
  P2pRequest, P2pLogin, FileSendRequest, FileSendAccept, RawData, op_status, login_reply,
  send_message, p2p_request, p2p_login, file_send_request, file_send_accept, find_active_reply,
}
use tcp_labs.Protocol.Dispatch.{Received, received, closed, unknown, aborted}
use tcp_labs.Socket.Epoll.{Epoll, insert, erase}
use tcp_labs.Server.Environment.{c_str}
use tcp_labs.Client.Environment.{Environment, copy_string}

-- The descriptor -1.
abbrev pub no_descriptor : ℕ
no_descriptor = 2 ^ 32 - 1

-- struct Global with the pending `data`, and what is handed to the sockets and to FileUDP::send(),
-- newest first.
pub record Client : Type 0 where
  pub account : Bytes
  pub passwd : Bytes
  pub server_conn : ℕ
  pub lookup : Map
  pub pending : FileSendAccept
  pub engine : Epoll
  pub connected : List (ℕ × ℕ × ℕ)
  pub sent : List (ℕ × RawData)
  pub transfers : List (Bytes × ℕ × ℕ)
  pub closed_conns : List ℕ

-- `new_conn` is the descriptor that socket() gives.
unfoldable pub peer_request_action : Environment → Client → ℕ → P2pRequest → Client
peer_request_action env s new_conn r = record s {
  connected = (new_conn, r.listener_ip, r.listener_port) ∷ s.connected;
  engine = insert s.engine new_conn;
  lookup = assign (c_str r.sender) new_conn s.lookup;
  sent = (new_conn, p2p_login (record { peer = copy_string env 32 s.account })) ∷ s.sent;
}

unfoldable pub p2p_login_action : Client → ℕ → P2pLogin → Client
p2p_login_action s conn r = record s { lookup = assign (c_str r.peer) conn s.lookup }

unfoldable pub file_send_request_action : Client → FileSendRequest → Client
file_send_request_action s r = record s {
  pending = record s.pending {
    sender = r.sender;
    receiver = r.receiver;
    file_path = r.file_path;
    file_length = r.file_length;
  };
}

-- An account that is not in `lookup` gets the descriptor 0 there, that of the input, which is no
-- socket: getpeername() ends the process.
unfoldable pub file_send_accept_action : Environment → Client → FileSendAccept → Option Client
file_send_accept_action env s r = elim (find (c_str r.receiver) s.lookup) [
  | none ↦ none
  | some peer_conn ↦ some (record s {
    transfers = (c_str r.file_path, env.peer_ip peer_conn, r.udp_port) ∷ s.transfers;
  })
]

unfoldable pub action : Environment → Client → ℕ → ℕ → RawData → Option Client
unfolding peer_request_action p2p_login_action file_send_request_action file_send_accept_action
action env s new_conn conn (op_status r) = some s
action env s new_conn conn (login_reply r) = some s
action env s new_conn conn (send_message r) = some s
action env s new_conn conn (p2p_request r) = some (peer_request_action env s new_conn r)
action env s new_conn conn (p2p_login r) = some (p2p_login_action s conn r)
action env s new_conn conn (file_send_request r) = some (file_send_request_action s r)
action env s new_conn conn (file_send_accept r) = file_send_accept_action env s r
action env s new_conn conn (find_active_reply r) = some s
action env s new_conn conn m = none

unfoldable pub conn_closed : Client → ℕ → Client
conn_closed s conn =
    let gone = record s { engine = erase s.engine conn; closed_conns = conn ∷ s.closed_conns } in
    if conn == s.server_conn
    then record gone { server_conn = no_descriptor }
    else record gone { lookup = erase_value conn s.lookup }

-- visitor(), on what get_type() and read_data() give. `none` is the end of the process.
unfoldable pub visitor : Environment → Client → ℕ → ℕ → Received → Option Client
unfolding action conn_closed
visitor env s new_conn conn closed = some (conn_closed s conn)
visitor env s new_conn conn (received m rest) = action env s new_conn conn m
visitor env s new_conn conn unknown = none
visitor env s new_conn conn aborted = none
