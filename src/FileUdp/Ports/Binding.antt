-- ===== src/FileUdp/Ports/Binding.antt =====
-- The port that a receiver tells its peer, and the address to which a sender connects.
use tcp_labs.Base.{
  ℕ, ◌^◌, ◌<◌, ◌≡◌, refl, inl, inr, true, List, ◌∷◌, Option, some, Bool-cases, arith,
}
use mathlib.Core.Option.{some-injective}
use mathlib.Core.Path.{subst}
use tcp_labs.Base.Cases.{option-cases}
use tcp_labs.Socket.System.{Sockaddr, Os, Process, receiving}
use tcp_labs.Socket.Address.{create_addr, get_port, getsockname, bind_port, inaddr_any, sock_dgram}
use tcp_labs.FileUdp.Ports.{udp_socket, udp_connect, open_file, open_receive_port, send}

-- What the code relies on of the byte order: a port in network order comes back.
pub record IsOrdered (os : Os) : Type 0 where
  pub port_back : (x : ℕ) → x < 2 ^ 16 → os.htons (os.ntohs x) ≡ x
  pub small :
      (fd : ℕ) (w : os.World) (name : Sockaddr)
      → os.getsockname fd w ≡ some name
      → name.sin_port < 2 ^ 16

module _ (os : Os) where
  -- What open_receive_port() leaves with the port `port`.
  pub record Opens (length port : ℕ) (before after : Process os) : Type 0 where
    pub server : ℕ
    pub local_file : Option ℕ
    pub started : after.started ≡ receiving server local_file length ∷ before.started
    pub name : Sockaddr
    pub named : os.getsockname server after.world ≡ some name
    pub reached : (create_addr os inaddr_any port).sin_port ≡ name.sin_port

  -- If a port comes back from network byte order and the names of sockets have ports below 2 ^ 16, then
  -- open_receive_port() that returns a port has started one more thread, that of receiver() with the
  -- length, on a socket whose own name has the port that a peer connects to.
  pub open_receive_port-Opens :
      (path : List ℕ) (length port : ℕ) (p q : Process os)
      → IsOrdered os
      → open_receive_port os path length p ≡ some (port, q)
      → Opens length port p q
  unfolding open_receive_port open_file udp_socket bind_port getsockname create_addr get_port
  open_receive_port-Opens path length port p q law done =
      let file = (os.fopen path true p.world).0 in
      let w1 = (os.fopen path true p.world).1 in
      let made = os.socket sock_dgram w1 in
      elim (option-cases made.0) [
        | inl failed ↦ absurd (ground arith)
        | inr (server, e) ↦
            let bound = os.bind server (create_addr os inaddr_any 0) made.1 in
            elim (Bool-cases bound.0) [
              | inr failed ↦ absurd (ground arith)
              | inl ok ↦ elim (option-cases (os.getsockname server bound.1)) [
                | inl failed ↦ absurd (ground arith)
                | inr (name, named) ↦
                    let end : Process os = record {
                      world = bound.1;
                      started = receiving server file length ∷ p.started;
                    } in
                    let result : some (os.ntohs name.sin_port, end) ≡ some (port, q) =
                      ground arith in
                    let both = some-injective (os.ntohs name.sin_port, end) (port, q) result in
                    subst (λ (r : ℕ × Process os). Opens length r.0 p r.1) both
                      (record {
                        server = server;
                        local_file = file;
                        started = refl;
                        name = name;
                        named = named;
                        reached = law.port_back name.sin_port (law.small server bound.1 name named);
                      })
              ]
            ]
      ]

  -- The peer's address that FileSendAccept::action() hands over has no effect: every transfer is sent
  -- to INADDR_ANY.
  pub send-any :
      (path : List ℕ) (ip other port : ℕ) (p : Process os)
      → send os path ip port p ≡ send os path other port p
  unfolding send udp_connect
  send-any path ip other port p = refl
