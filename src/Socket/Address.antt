-- ===== src/Socket/Address.antt =====
-- class DogAddr, class Communication and class TCP of include/dog_socket.h.
use tcp_labs.Base.{ℕ}
use tcp_labs.Socket.System.{Sockaddr, Os, Run, checked, opened, asked}

-- Constants of include/common.h and of the system.
abbrev pub server_ip : ℕ
server_ip = 0x7f00_0001

abbrev pub server_port : ℕ
server_port = 30000

abbrev pub listenq : ℕ
listenq = 1024

abbrev pub af_inet : ℕ
af_inet = 2

abbrev pub inaddr_any : ℕ
inaddr_any = 0

abbrev pub sock_stream : ℕ
sock_stream = 1

abbrev pub sock_dgram : ℕ
sock_dgram = 2

module _ (os : Os) where
  unfoldable pub create_addr : ℕ → ℕ → Sockaddr
  create_addr ip port = record {
    sin_family = af_inet;
    sin_port = os.htons port;
    sin_addr = os.htonl ip;
  }

  unfoldable pub get_ip : Sockaddr → ℕ
  get_ip addr = os.ntohl addr.sin_addr

  unfoldable pub get_port : Sockaddr → ℕ
  get_port addr = os.ntohs addr.sin_port

  unfoldable pub getsockname : ℕ → Run os Sockaddr
  getsockname fd = asked os (os.getsockname fd)

  unfoldable pub getpeername : ℕ → Run os Sockaddr
  getpeername fd = asked os (os.getpeername fd)

  unfoldable pub tcp_socket : Run os ℕ
  tcp_socket = opened os (os.socket sock_stream)

  unfoldable pub connect : ℕ → ℕ → ℕ → Run os (Unit {0})
  unfolding create_addr
  connect fd ip port = checked os (os.connect fd (create_addr ip port))

  -- The same of class TCP and of class UDP.
  unfoldable pub bind_port : ℕ → ℕ → Run os (Unit {0})
  unfolding create_addr
  bind_port fd port = checked os (os.bind fd (create_addr inaddr_any port))

  unfoldable pub listen : ℕ → Run os (Unit {0})
  listen fd = checked os (os.listen fd listenq)

  unfoldable pub close : ℕ → Run os (Unit {0})
  close fd = checked os (os.close fd)
