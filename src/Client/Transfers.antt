-- ===== src/Client/Transfers.antt =====
-- How two clients set up the transfer of a file: file_send(), FileSendRequest::action(), file_accept() and
-- FileSendAccept::action(), over FileUDP::len() and FileUDP::open_receive_port().
mod Tests
use tcp_labs.Base.{ℕ, ◌≡◌, refl, ap, sym, ◌∙◌, inl, inr, List, [], ◌∷◌, Option, none, some, arith}
use mathlib.Core.Path.{subst}
use mathlib.Core.Option.{some-injective}
use tcp_labs.Base.Cases.{option-cases}
use tcp_labs.Base.Maps.{find}
use tcp_labs.Protocol.Bytes.{Bytes}
use tcp_labs.Protocol.Structs.{
  FileSendRequest, FileSendAccept, RawData, file_send_request, file_send_accept,
}
use tcp_labs.Server.Environment.{c_str}
use tcp_labs.Socket.System.{Os, Process}
use tcp_labs.FileUdp.Ports.{file_len, open_receive_port}
use tcp_labs.FileUdp.Ports.Binding.{IsOrdered, Opens, open_receive_port-Opens}
use tcp_labs.Client.Environment.{Environment, Word, copy_string, read_word}
use tcp_labs.Client.Actions.{Client, file_send_request_action, file_send_accept_action}
use tcp_labs.Client.Commands.{deliver, file_send, file_accept}

-- What a client takes from FileUDP is what the process `p` gives.
pub record IsRunning (os : Os) (p : Process os) (env : Environment) : Type 0 where
  pub file_length :
      (path : Bytes) (n : ℕ) (q : Process os)
      → file_len os path p ≡ some (n, q)
      → env.length_of_file path ≡ n
  pub port :
      (path : Bytes) (length port : ℕ) (q : Process os)
      → open_receive_port os path length p ≡ some (port, q)
      → env.receive_port path length ≡ port

-- The message of file_send().
requested :
    (env : Environment) (s t : Client) (receiver : Word 32) (path : Word 256)
    → file_send env s receiver path ≡ some t
    → (conn : ℕ) × (m : FileSendRequest) × (t.sent ≡ (conn, file_send_request m) ∷ s.sent)
      × (t.transfers ≡ s.transfers)
      × (m.file_path ≡ read_word env 256 path)
      × (m.file_length ≡ env.length_of_file (c_str (read_word env 256 path)))
unfolding file_send
requested env s t receiver path e =
    elim (option-cases (find (c_str (read_word env 32 receiver)) s.lookup)) [
      | inl alone ↦ absurd (ground arith)
      | inr (conn, at_peer) ↦
          let m : FileSendRequest = record {
            sender = copy_string env 32 s.account;
            receiver = read_word env 32 receiver;
            file_path = read_word env 256 path;
            file_length = env.length_of_file (c_str (read_word env 256 path));
          } in
          let done : some (deliver env s conn (file_send_request m)) ≡ some t = ground arith in
          let same = some-injective (deliver env s conn (file_send_request m)) t done in
          (conn, m, ap (λ c. c.sent) (sym same), ap (λ c. c.transfers) (sym same), refl, refl)
    ]

-- The message of file_accept().
answered :
    (env : Environment) (s t : Client) (path : Bytes)
    → file_accept env s path ≡ some t
    → (conn : ℕ) × (r : FileSendAccept) × (t.sent ≡ (conn, file_send_accept r) ∷ s.sent)
      × (r.file_path ≡ s.pending.file_path)
      × (r.udp_port ≡ env.receive_port path s.pending.file_length)
unfolding file_accept
answered env s t path e = elim (option-cases (find (c_str s.pending.sender) s.lookup)) [
  | inl alone ↦ absurd (ground arith)
  | inr (conn, at_peer) ↦
      let r : FileSendAccept = record s.pending {
        udp_port = env.receive_port path s.pending.file_length;
      } in
      let done : some (deliver env (record s { pending = r }) conn (file_send_accept r)) ≡ some t =
        ground arith in
      let same =
        some-injective (deliver env (record s { pending = r }) conn (file_send_accept r)) t done in
      (conn, r, ap (λ c. c.sent) (sym same), refl, refl)
]

abbrev newest_request : List (ℕ × RawData) → Option FileSendRequest
newest_request ((conn, file_send_request m) ∷ ms) = some m
newest_request _ = none

abbrev newest_accept : List (ℕ × RawData) → Option FileSendAccept
newest_accept ((conn, file_send_accept r) ∷ ms) = some r
newest_accept _ = none

sent_to :
    (env : Environment) (s t : Client) (r : FileSendAccept)
    → file_send_accept_action env s r ≡ some t
    → (ip : ℕ) × (t.transfers ≡ (c_str r.file_path, ip, r.udp_port) ∷ s.transfers)
unfolding file_send_accept_action
sent_to env s t r e = elim (option-cases (find (c_str r.receiver) s.lookup)) [
  | inl alone ↦ absurd (ground arith)
  | inr (peer, at_peer) ↦
      let ip = env.peer_ip peer in
      let u : Client = record s { transfers = (c_str r.file_path, ip, r.udp_port) ∷ s.transfers } in
      let done : some u ≡ some t = ground arith in
      (ip, ap (λ c. c.transfers) (sym (some-injective u t done)))
]

-- `a` sends a request for a file of `n` bytes, `b` takes it and accepts, with FileUDP giving it `port`,
-- and `a` takes that message. If a port comes back from network byte order and the names of sockets
-- have ports below 2 ^ 16, then `b` has started receiver() for `n` bytes on a socket with that port,
-- and `a` has called FileUDP::send() with the path of its request and that port.
pub transfer_set_up :
    (os : Os) (pa qa pb qb : Process os) (env env' : Environment) (a a1 a2 b b1 : Client)
    (to : Word 32) (path : Word 256) (local : Bytes) (conn conn' n port : ℕ) (m : FileSendRequest)
    (r : FileSendAccept)
    → IsOrdered os
    → IsRunning os pa env
    → IsRunning os pb env'
    → file_len os (c_str (read_word env 256 path)) pa ≡ some (n, qa)
    → open_receive_port os local n pb ≡ some (port, qb)
    → file_send env a to path ≡ some a1
    → a1.sent ≡ (conn, file_send_request m) ∷ a.sent
    → file_accept env' (file_send_request_action b m) local ≡ some b1
    → b1.sent ≡ (conn', file_send_accept r) ∷ b.sent
    → file_send_accept_action env a1 r ≡ some a2
    → Opens os n port pb qb
      × ((ip : ℕ) × (a2.transfers ≡ (c_str (read_word env 256 path), ip, port) ∷ a.transfers))
unfolding file_send_request_action
transfer_set_up os pa qa pb qb env env' a a1 a2 b b1 to path local conn conn' n port m r law at_a
      at_b measured opened asked request accepted answer taken =
    let (c, m', sent, kept, path_eq, length_eq) = requested env a a1 to path asked in
    let same_m : m' ≡ m = some-injective m' m (ap newest_request (sym sent ∙ request)) in
    let (c', r', sent', path_eq', port_eq) =
      answered env' (file_send_request_action b m) b1 local accepted in
    let same_r : r' ≡ r = some-injective r' r (ap newest_accept (sym sent' ∙ answer)) in
    let (ip, transfers) = sent_to env a1 a2 r taken in
    let length_n : m.file_length ≡ n =
      ap (λ x. x.file_length) (sym same_m) ∙ length_eq ∙ at_a.file_length _ n qa measured in
    let at_port : r.udp_port ≡ port =
      ap (λ x. x.udp_port) (sym same_r)
      ∙ port_eq
      ∙ ap (env'.receive_port local) length_n
      ∙ at_b.port local n port qb opened in
    let at_path : c_str r.file_path ≡ c_str (read_word env 256 path) = ap c_str (
      ap (λ x. x.file_path) (sym same_r)
      ∙ path_eq'
      ∙ ap (λ x. x.file_path) (sym same_m)
      ∙ path_eq) in
    (open_receive_port-Opens os local n port pb qb law opened, (ip, transfers ∙ cc))
