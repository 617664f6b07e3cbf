-- ===== src/Client/Commands.antt =====
-- The commands of client/client.cpp.
use tcp_labs.Base.{ℕ, arith, List, [], ◌∷◌, ◌++◌, Option, none, some, take, replicate}
use tcp_labs.Base.Maps.{codes, find}
use tcp_labs.Protocol.Bytes.{Bytes}
use tcp_labs.Protocol.Structs.{
  SendMessage, FileSendRequest, RawData, registion, login_in, send_message, p2p_request,
  file_send_request, file_send_accept, recover_password, find_active_request,
}
use tcp_labs.Server.Environment.{c_str}
use tcp_labs.Client.Environment.{Environment, Word, copy_string, read_word}
use tcp_labs.Client.Actions.{Client}

-- The words of the input behind the word that names the command.
pub data Command : Type 0 where
  register_command : Word 32 → Word 32 → Word 32 → Command
  recover_command : Word 32 → Word 32 → Word 32 → Command
  login_command : Word 32 → Word 32 → Command
  active_command : Command
  send_command : Word 32 → Word 512 → Command
  p2p_command : Word 32 → Command
  filesend_command : Word 32 → Word 256 → Command
  file_accept_command : Bytes → Command

-- A word that names no command is ignored.
pub data Request : Type 0 where
  worded : Command → Request
  up_request : Request
  down_request : Request
  up2_request : Request
  down2_request : Request
  ignored_request : Request

-- The words of the commands that have fixed ones.
abbrev pub mike : Word 32
mike = record { letters = codes "mike"; shorter = omega arith }

abbrev pub wang : Word 32
wang = record { letters = codes "wang"; shorter = omega arith }

abbrev pub fluorine : Word 32
fluorine = record { letters = codes "fluorine"; shorter = omega arith }

module _ (env : Environment) where
  abbrev pub deliver : Client → ℕ → RawData → Client
  deliver s conn m = record s { sent = (conn, m) ∷ s.sent }

  unfoldable pub registion_message : Word 32 → Word 32 → Word 32 → RawData
  registion_message account password nickname = registion (record {
    account = read_word env 32 account;
    pass_md5 = read_word env 32 password;
    nickname = read_word env 32 nickname;
  })

  unfoldable pub recover_message : Word 32 → Word 32 → Word 32 → RawData
  recover_message account password nickname = recover_password (record {
    account = read_word env 32 account;
    nickname = read_word env 32 nickname;
    new_pass_md5 = read_word env 32 password;
  })

  unfoldable pub active : Client → Client
  active s =
      deliver s s.server_conn
        (find_active_request (record { sender = copy_string env 32 s.account }))

  unfoldable pub log_in : Client → Word 32 → Word 32 → Client
  log_in s account password =
      let raw = read_word env 32 account in
      let pass = read_word env 32 password in
      deliver (record s { account = c_str raw; passwd = c_str pass }) s.server_conn
        (login_in (record { account = raw; pass_md5 = pass }))

  unfoldable pub new_message : Client → Word 32 → Word 512 → SendMessage
  new_message s receiver text = record {
    sender = copy_string env 32 s.account;
    receiver = read_word env 32 receiver;
    timestamp = env.now;
    message = read_word env 512 text;
  }

  unfoldable pub sendmsg : Client → Word 32 → Word 512 → Client
  sendmsg s receiver text =
      let raw = new_message s receiver text in
      elim (find (c_str raw.receiver) s.lookup) [
        | some peer_conn ↦ deliver s peer_conn (send_message raw)
        | none ↦ deliver s s.server_conn (send_message raw)
      ]

  unfoldable pub p2p_request_command : Client → Word 32 → Client
  p2p_request_command s receiver = deliver s s.server_conn (
      p2p_request (record {
        sender = copy_string env 32 s.account;
        receiver = read_word env 32 receiver;
        listener_ip = env.unset;
        listener_port = env.self_port;
      }))

  -- Without a connection the code uses the end of `lookup` as an entry: `none`.
  unfoldable pub file_send : Client → Word 32 → Word 256 → Option Client
  file_send s receiver path =
      let to = read_word env 32 receiver in
      let file = read_word env 256 path in
      elim (find (c_str to) s.lookup) [
        | none ↦ none
        | some peer_conn ↦ some (
            deliver s peer_conn (
              file_send_request (record {
                sender = copy_string env 32 s.account;
                receiver = to;
                file_path = file;
                file_length = env.length_of_file (c_str file);
              })))
      ]

  unfoldable pub file_accept : Client → Bytes → Option Client
  file_accept s local_path =
      let raw = record s.pending { udp_port = env.receive_port local_path s.pending.file_length } in
      elim (find (c_str raw.sender) s.lookup) [
        | none ↦ none
        | some peer_conn ↦
            some (deliver (record s { pending = raw }) peer_conn (file_send_accept raw))
      ]

  unfoldable pub run_command : Client → Command → Option Client
  unfolding registion_message recover_message active log_in sendmsg p2p_request_command file_send
      file_accept
  run_command s (register_command a p n) = some (deliver s s.server_conn (registion_message a p n))
  run_command s (recover_command a p n) = some (deliver s s.server_conn (recover_message a p n))
  run_command s (login_command a p) = some (log_in s a p)
  run_command s active_command = some (active s)
  run_command s (send_command receiver text) = some (sendmsg s receiver text)
  run_command s (p2p_command receiver) = some (p2p_request_command s receiver)
  run_command s (filesend_command receiver path) = file_send s receiver path
  run_command s (file_accept_command path) = file_accept s path

  -- The commands with fixed words.
  unfoldable pub down : Client → Client
  unfolding log_in
  down s = log_in s mike wang

  unfoldable pub up : Client → Client
  unfolding log_in p2p_request_command
  up s = p2p_request_command (log_in s fluorine wang) mike

  unfoldable pub down2 : Client → Option Client
  unfolding file_accept
  down2 s = file_accept s (codes "/home/mike/ggi.tgz")

  -- The message is all zeros at first.
  abbrev pub fixed_word : ℕ → Bytes → Bytes
  fixed_word n w = take n (w ++ replicate n 0)

  unfoldable pub intel_request : Client → FileSendRequest
  intel_request s = record {
    sender = copy_string env 32 s.account;
    receiver = fixed_word 32 (codes "mike");
    file_path = fixed_word 256 (codes "/home/mike/intel.tgz");
    file_length = env.length_of_file (c_str (fixed_word 256 (codes "/home/mike/intel.tgz")));
  }

  unfoldable pub up2 : Client → Option Client
  up2 s = elim (find (c_str (fixed_word 32 (codes "mike"))) s.lookup) [
    | none ↦ none
    | some peer_conn ↦ some (deliver s peer_conn (file_send_request (intel_request s)))
  ]

  unfoldable pub run_request : Client → Request → Option Client
  unfolding run_command up down up2 down2
  run_request s (worded command) = run_command s command
  run_request s up_request = some (up s)
  run_request s down_request = some (down s)
  run_request s up2_request = up2 s
  run_request s down2_request = down2 s
  run_request s ignored_request = some s

  -- The loop of main() over the input.
  unfoldable pub run_requests : Client → List Request → Option Client
  unfolding run_request
  run_requests s [] = some s
  run_requests s (request ∷ requests) = elim (run_request s request) [
    | none ↦ none
    | some s' ↦ run_requests s' requests
  ]
