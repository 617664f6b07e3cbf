-- ===== src/Client/Routes.antt =====
-- Where the commands of client/client.cpp send their messages.
use tcp_labs.Base.{ℕ, ◌≡◌, refl, ap, sym, ◌∙◌, ◌⊎◌, inl, inr, true, ◌∷◌, none, some, arith}
use mathlib.Core.Option.{some-injective}
use tcp_labs.Base.Maps.{find}
use tcp_labs.Protocol.Bytes.{Bytes}
use tcp_labs.Protocol.Structs.{
  FileSendAccept, RawData, type_id, send_message, file_send_request, file_send_accept,
}
use tcp_labs.Protocol.Dispatch.{server, client, is_new_case}
use tcp_labs.Server.Environment.{c_str}
use tcp_labs.Base.Cases.{option-cases}
use tcp_labs.Client.Environment.{Environment, Word, copy_string, read_word}
use tcp_labs.Client.Actions.{Client}
use tcp_labs.Client.Commands.{
  Command, register_command, recover_command, login_command, active_command, send_command,
  p2p_command, filesend_command, file_accept_command, deliver, registion_message, recover_message,
  active, log_in, new_message, sendmsg, p2p_request_command, file_send, file_accept, run_command,
}
use tcp_labs.Client.Peers.{sendmsg-peer}

module _ (env : Environment) where
  -- The newest message goes to the server and is of a type that the server takes, or goes to a peer
  -- and is of a type that a client takes.
  abbrev pub IsRouted : Client → Client → Type 0
  IsRouted s s' =
      (conn : ℕ) × (m : RawData) × (s'.sent ≡ (conn, m) ∷ s.sent)
      × (((conn ≡ s.server_conn) × (is_new_case server (type_id m) ≡ true))
          ⊎ ((k : Bytes) × (find k s.lookup ≡ some conn) × (is_new_case client (type_id m) ≡ true)))

  to_server :
      (s s' c : Client) (m : RawData)
      → some c ≡ some s'
      → c.sent ≡ (s.server_conn, m) ∷ s.sent
      → is_new_case server (type_id m) ≡ true
      → IsRouted s s'
  to_server s s' c m e sent takes =
      (s.server_conn, m, ap (λ d. d.sent) (sym (some-injective c s' e)) ∙ sent, inl (refl, takes))

  to_peer :
      (s s' c : Client) (k : Bytes) (conn : ℕ) (m : RawData)
      → find k s.lookup ≡ some conn
      → some c ≡ some s'
      → c.sent ≡ (conn, m) ∷ s.sent
      → is_new_case client (type_id m) ≡ true
      → IsRouted s s'
  to_peer s s' c k conn m h e sent takes =
      (conn, m, ap (λ d. d.sent) (sym (some-injective c s' e)) ∙ sent, inr (k, h, takes))

  pub sendmsg-server :
      (s : Client) (receiver : Word 32) (text : Word 512)
      → find (c_str (read_word env 32 receiver)) s.lookup ≡ none
      → sendmsg env s receiver text
        ≡ deliver env s s.server_conn (send_message (new_message env s receiver text))
  unfolding sendmsg new_message
  sendmsg-server s receiver text h = ground arith

  sendmsg-IsRouted :
      (s s' : Client) (receiver : Word 32) (text : Word 512)
      → some (sendmsg env s receiver text) ≡ some s'
      → IsRouted s s'
  unfolding is_new_case type_id
  sendmsg-IsRouted s s' receiver text e =
      elim (option-cases (find (c_str (read_word env 32 receiver)) s.lookup)) [
        | inl h ↦
            to_server s s' (sendmsg env s receiver text)
              (send_message (new_message env s receiver text)) e
              (ap (λ d. d.sent) (sendmsg-server s receiver text h)) refl
        | inr (conn, h) ↦
            to_peer s s' (sendmsg env s receiver text) (c_str (read_word env 32 receiver)) conn
              (send_message (new_message env s receiver text)) h e
              (ap (λ d. d.sent) (sendmsg-peer env s receiver text conn h)) refl
      ]

  file_send-IsRouted :
      (s s' : Client) (receiver : Word 32) (path : Word 256)
      → file_send env s receiver path ≡ some s'
      → IsRouted s s'
  unfolding file_send is_new_case type_id
  file_send-IsRouted s s' receiver path e =
      elim (option-cases (find (c_str (read_word env 32 receiver)) s.lookup)) [
        | inl h ↦ absurd (ground arith)
        | inr (conn, h) ↦
            let m = file_send_request (record {
              sender = copy_string env 32 s.account;
              receiver = read_word env 32 receiver;
              file_path = read_word env 256 path;
              file_length = env.length_of_file (c_str (read_word env 256 path));
            }) in
            to_peer s s' (deliver env s conn m) (c_str (read_word env 32 receiver)) conn m h
              (ground arith) refl refl
      ]

  pub file_accept-IsRouted :
      (s s' : Client) (path : Bytes) → file_accept env s path ≡ some s' → IsRouted s s'
  unfolding file_accept is_new_case type_id
  file_accept-IsRouted s s' path e = elim (option-cases (find (c_str s.pending.sender) s.lookup)) [
    | inl h ↦ absurd (ground arith)
    | inr (conn, h) ↦
        let raw : FileSendAccept = record s.pending {
          udp_port = env.receive_port path s.pending.file_length;
        } in
        let m = file_send_accept raw in
        to_peer s s' (deliver env (record s { pending = raw }) conn m) (c_str s.pending.sender) conn
          m h (ground arith) refl refl
  ]

  -- Each command that does not fail sends one message: to the server, of a type that the server
  -- takes, or to the connection of a peer, of a type that a client takes.
  pub run_command-IsRouted :
      (s s' : Client) (command : Command) → run_command env s command ≡ some s' → IsRouted s s'
  unfolding run_command registion_message recover_message active log_in p2p_request_command
      is_new_case type_id
  run_command-IsRouted s s' (register_command a p n) e = to_server s s' _ _ e refl refl
  run_command-IsRouted s s' (recover_command a p n) e = to_server s s' _ _ e refl refl
  run_command-IsRouted s s' (login_command a p) e = to_server s s' _ _ e refl refl
  run_command-IsRouted s s' active_command e = to_server s s' _ _ e refl refl
  run_command-IsRouted s s' (send_command receiver text) e = sendmsg-IsRouted s s' receiver text e
  run_command-IsRouted s s' (p2p_command receiver) e = to_server s s' _ _ e refl refl
  run_command-IsRouted s s' (filesend_command receiver path) e =
      file_send-IsRouted s s' receiver path e
  run_command-IsRouted s s' (file_accept_command path) e = file_accept-IsRouted s s' path e
