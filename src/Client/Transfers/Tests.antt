-- ===== src/Client/Transfers/Tests.antt =====
-- ann sends bob a file, on a system in which no call fails.
use tcp_labs.Base.{ℕ, ◌≡◌, refl, [], ◌∷◌, some, take, replicate, arith}
use mathlib.Core.Path.{ap}
use mathlib.Core.Option.{some-injective}
use tcp_labs.Base.Maps.{codes, assign, find, str_eq}
use tcp_labs.Protocol.Structs.{FileSendRequest, FileSendAccept, file_send_request, file_send_accept}
use tcp_labs.Server.Environment.{c_str, literal}
use tcp_labs.Socket.System.{receiving}
use tcp_labs.Socket.Kernel.{test_os, idle}
use tcp_labs.FileUdp.Ports.{file_len, open_receive_port}
use tcp_labs.FileUdp.Ports.Binding.{Opens}
use tcp_labs.FileUdp.Ports.Tests.{test_os-IsOrdered, receiving_ten}
use tcp_labs.Client.Environment.{Environment, Word, copy_string, read_word}
use tcp_labs.Client.Actions.{
  Client, peer_request_action, p2p_login_action, file_send_request_action, file_send_accept_action,
}
use tcp_labs.Client.Commands.{file_send, file_accept}
use tcp_labs.Client.Tests.{test_env, ann_connected, bob_connected, to_bob}
use tcp_labs.Client.Transfers.{IsRunning, transfer_set_up}

abbrev ports_env : Environment
ports_env = record test_env { receive_port = λ path n. 40004 }

ports_env-IsRunning : IsRunning test_os idle ports_env
unfolding file_len open_receive_port
ports_env-IsRunning = record {
  file_length = λ path n q e. ap (λ r. r.0) (some-injective (10, idle) (n, q) e);
  port = λ path length port q e.
      ap (λ r. r.0)
        (some-injective (40004, record { world = 4; started = receiving 4 (some 3) length ∷ [] })
          (port, q) e);
}

abbrev path : Word 256
path = record { letters = codes "f"; shorter = omega arith }

abbrev request : FileSendRequest
request = record {
  sender = copy_string ports_env 32 (codes "ann");
  receiver = read_word ports_env 32 to_bob;
  file_path = read_word ports_env 256 path;
  file_length = 10;
}

abbrev ann_asked : Client
ann_asked = record ann_connected { sent = (8, file_send_request request) ∷ ann_connected.sent }

abbrev bob_asked : Client
bob_asked = file_send_request_action bob_connected request

abbrev answer : FileSendAccept
answer = record bob_asked.pending { udp_port = 40004 }

abbrev bob_accepted : Client
bob_accepted = record bob_asked {
  pending = answer;
  sent = (7, file_send_accept answer) ∷ bob_asked.sent;
}

abbrev ann_sends : Client
ann_sends = record ann_asked { transfers = (c_str answer.file_path, 2130706433, 40004) ∷ [] }

transfer_set_up_example :
    Opens test_os 10 40004 idle receiving_ten
    × ((ip : ℕ) × (ann_sends.transfers
          ≡ (c_str (read_word ports_env 256 path), ip, 40004) ∷ ann_connected.transfers))
unfolding file_len open_receive_port file_send file_accept file_send_request_action
    file_send_accept_action peer_request_action p2p_login_action copy_string read_word c_str literal
    take replicate assign find str_eq
transfer_set_up_example =
    transfer_set_up test_os idle idle idle receiving_ten ports_env ports_env ann_connected ann_asked
      ann_sends bob_connected bob_accepted to_bob path (codes "g") 8 7 10 40004 request answer
      test_os-IsOrdered ports_env-IsRunning ports_env-IsRunning refl refl refl refl refl refl refl
