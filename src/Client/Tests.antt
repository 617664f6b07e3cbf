-- ===== src/Client/Tests.antt =====
-- Two clients that connect to each other, and commands that they run.
use tcp_labs.Base.{arith, ◌≡◌, refl, [], ◌∷◌, some, replicate, take}
use tcp_labs.Base.Maps.{codes}
use tcp_labs.Protocol.Bytes.{Bytes}
use tcp_labs.Protocol.Structs.{P2pRequest, P2pLogin, FileSendAccept, p2p_login, send_message}
use tcp_labs.Socket.Epoll.{added}
use tcp_labs.Server.Environment.{c_str, literal}
use tcp_labs.Client.Environment.{Environment, Word, copy_string}
use tcp_labs.Client.Actions.{Client, peer_request_action, p2p_login_action}
use tcp_labs.Client.Commands.{deliver, new_message, sendmsg}
use tcp_labs.Client.Peers.{p2p_direct}

abbrev pub test_env : Environment
test_env = record {
  peer_ip = λ conn. 2130706433;
  self_port = 4242;
  now = 99;
  unset = 0;
  length_of_file = λ path. 10;
  receive_port = λ path n. 5555;
  memory = λ n. replicate n 1;
  behind = λ n s. replicate n 2;
}

abbrev no_file : FileSendAccept
no_file = record {
  sender = [];
  receiver = [];
  udp_port = 0;
  file_path = [];
  padding = [];
  file_length = 0;
}

abbrev new_client : Bytes → Client
new_client account = record {
  account = account;
  passwd = [];
  server_conn = 3;
  lookup = [];
  pending = no_file;
  engine = record { server = some 4; ctl = added 3 ∷ added 4 ∷ [] };
  connected = [];
  sent = [];
  transfers = [];
  closed_conns = [];
}

abbrev ann : Client
ann = new_client (codes "ann")

abbrev pub to_ann : Word 32
to_ann = record { letters = codes "ann"; shorter = omega arith }

abbrev pub to_bob : Word 32
to_bob = record { letters = codes "bob"; shorter = omega arith }

abbrev hi : Word 512
hi = record { letters = codes "hi"; shorter = omega arith }

abbrev bob : Client
bob = new_client (codes "bob")

abbrev from_ann : P2pRequest
from_ann = record {
  sender = literal 32 (codes "ann");
  receiver = literal 32 (codes "bob");
  listener_ip = 2130706433;
  listener_port = 4242;
}

abbrev pub bob_connected : Client
bob_connected = peer_request_action test_env bob 7 from_ann

abbrev pub bob_name : P2pLogin
bob_name = record { peer = copy_string test_env 32 (codes "bob") }

abbrev pub ann_connected : Client
ann_connected = p2p_login_action ann 8 bob_name

p2p_direct_example :
    (bob_connected.sent ≡ (7, p2p_login bob_name) ∷ [])
    × (sendmsg test_env bob_connected to_ann hi
        ≡ deliver test_env bob_connected 7
            (send_message (new_message test_env bob_connected to_ann hi)))
    × (sendmsg test_env ann_connected to_bob hi
        ≡ deliver test_env ann_connected 8
            (send_message (new_message test_env ann_connected to_bob hi)))
unfolding c_str literal take replicate
p2p_direct_example = p2p_direct test_env ann bob from_ann 7 8 to_ann to_bob hi refl refl
