-- ===== src/FileUdp/Ports.antt =====
-- class Jam, class UDP and class Real_FileUDP of protocol/file_udp.h: the sockets of a transfer and the
-- threads that are started for it.
pub mod Binding
pub mod Tests
use tcp_labs.Base.{ℕ, Bool, true, false, List, Option, if◌then◌else◌}
use tcp_labs.Socket.System.{
  Sockaddr, Os, Task, receiving, sending, Run, pure, opened, plain, asked, start_thread, ◌>>=◌,
  ◌>>◌,
}
use tcp_labs.Socket.Address.{create_addr, get_port, getsockname, bind_port, inaddr_any, sock_dgram}

-- A generator with its probability, over any numbers with their order; `draw` is what the generator
-- gives.
pub record Jam (Real : Type 0) : Type 0 where
  pub p : Real
  pub below : Real → Real → Bool

unfoldable pub lost : {Real : Type 0} → Jam Real → Real → Bool
lost jam draw = jam.below draw jam.p

module _ (os : Os) where
  unfoldable pub udp_socket : Run os ℕ
  udp_socket = opened os (os.socket sock_dgram)

  unfoldable pub set_timeout : ℕ → ℕ → Run os (Unit {0})
  set_timeout fd usec = plain os (os.set_timeout fd usec)

  -- The address that is given is not used, nor is the status.
  unfoldable pub udp_connect : ℕ → ℕ → ℕ → Run os (Unit {0})
  unfolding create_addr
  udp_connect fd ip port =
      plain os (λ world. (os.connect fd (create_addr os inaddr_any port) world).1)

  unfoldable pub udp_close : ℕ → Run os (Unit {0})
  udp_close fd = plain os (λ world. (os.close fd world).1)

  unfoldable pub udp_send : {Real : Type 0} → Jam Real → Real → ℕ → List ℕ → Run os (Unit {0})
  unfolding lost
  udp_send jam draw fd bytes = if lost jam draw then pure os tt else plain os (os.send fd bytes)

  unfoldable pub file_len : List ℕ → Run os ℕ
  file_len file_path = asked os (os.file_size file_path)

  -- fopen(), whose result goes on as it is.
  unfoldable pub open_file : List ℕ → Bool → Run os (Option ℕ)
  open_file path writes p =
      let (file, world) = os.fopen path writes p.world in
      Option.some (file, record p { world = world })

  unfoldable pub open_receive_port : List ℕ → ℕ → Run os ℕ
  unfolding open_file udp_socket bind_port getsockname get_port
  open_receive_port local_file_path length = do
    local_file ← open_file local_file_path true
    server ← udp_socket
    bind_port os server 0
    start_thread os (receiving server local_file length)
    name ← getsockname os server
    pure os (get_port os name)

  unfoldable pub send : List ℕ → ℕ → ℕ → Run os (Unit {0})
  unfolding open_file udp_socket bind_port udp_connect file_len
  send file_path server_ip port = do
    sending_file ← open_file file_path false
    conn ← udp_socket
    bind_port os conn 0
    udp_connect conn server_ip port
    length ← file_len file_path
    start_thread os (sending conn sending_file length)

  -- What a thread does behind receiver() or sender().
  unfoldable pub finish : Task → Run os (Unit {0})
  unfolding udp_close
  finish (receiving server local_file length) = do udp_close server; plain os (os.fclose local_file)
  finish (sending conn sending_file length) = do udp_close conn; plain os (os.fclose sending_file)
