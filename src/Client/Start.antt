-- ===== src/Client/Start.antt =====
-- main() of client/client.cpp: its sockets, its Epoll and the two threads.
mod Tests
use tcp_labs.Base.{
  ℕ, ◌≡◌, refl, inl, inr, Bool, true, false, List, [], ◌∷◌, Option, none, some, replicate,
  if◌then◌else◌, arith,
}
use mathlib.Core.Option.{some-injective}
use mathlib.Core.Path.{subst}
use tcp_labs.Base.Cases.{option-cases}
use tcp_labs.Base.Maps.{count_value}
use tcp_labs.Protocol.Structs.{FileSendAccept}
use tcp_labs.Socket.System.{Os, Process, Run, pure, ◌>>=◌, ◌>>◌}
use tcp_labs.Socket.Address.{server_ip, server_port, tcp_socket, connect, bind_port, listen}
use tcp_labs.Socket.Epoll.{Epoll, new_epoll, insert, set_server, is_watched}
use tcp_labs.Client.Environment.{Environment}
use tcp_labs.Client.Actions.{Client}
use tcp_labs.Client.Threads.{Turn, play}
use tcp_labs.Client.Joined.{IsJoined, AllOffered, play-IsJoined}

-- The connection to the server, and the listening socket.
unfoldable pub sockets : (os : Os) → Run os (ℕ × ℕ)
unfolding tcp_socket connect bind_port listen
sockets os = do
  client ← tcp_socket os
  connect os client server_ip server_port
  self_server ← tcp_socket os
  bind_port os self_server 0
  listen os self_server
  pure os (client, self_server)

-- `data`, a global object of zeros at first.
abbrev pub blank_accept : FileSendAccept
blank_accept = record {
  sender = replicate 32 0;
  receiver = replicate 32 0;
  udp_port = 0;
  file_path = replicate 256 0;
  padding = replicate 6 0;
  file_length = 0;
}

-- The thread of the Epoll up to its loop. No command reads or changes it, so this stands before all
-- commands.
unfoldable pub begin : ℕ → ℕ → Bool → Option Client
unfolding set_server insert
begin client self_server ok = elim (set_server new_epoll self_server ok) [
  | none ↦ none
  | some engine ↦ some (record {
    account = [];
    passwd = [];
    server_conn = client;
    lookup = [];
    pending = blank_accept;
    engine = insert engine client;
    connected = [];
    sent = [];
    transfers = [];
    closed_conns = [];
  })
]

begin-IsJoined :
    (client self_server : ℕ) (ok : Bool) (s : Client)
    → begin client self_server ok ≡ some s
    → IsJoined s
unfolding begin set_server insert is_watched count_value
begin-IsJoined client self_server false s e = absurd (ground arith)
begin-IsJoined client self_server true s e = subst IsJoined (some-injective _ s e) (record {
  single = λ c. omega arith;
  online = λ c. inl refl;
  apart = refl;
  real = refl;
  server_online = inr (ground arith);
})

module _ (env : Environment) where
  unfoldable pub main : (os : Os) → Process os → Bool → List Turn → Option Client
  unfolding sockets begin play
  main os p ok turns = elim (sockets os p) [
    | none ↦ none
    | some ((client, self_server), q) ↦ elim (begin client self_server ok) [
      | none ↦ none
      | some s ↦ play env s turns
    ]
  ]

  -- From the start of the client on, over any turns of its two threads and whatever its calls give, if
  -- epoll_wait() gives descriptors of the interest list, socket() one that is not in use, and the login
  -- of a peer comes on a connection that has no account, then every account is on a connection of the
  -- interest list, no two are on one, and none is on that of the server, which is in the list until it
  -- is lost, as long as the process does not end.
  pub main-IsJoined :
      (os : Os) (p : Process os) (ok : Bool) (turns : List Turn) (t : Client)
      → ((client self_server : ℕ) (q : Process os) (s : Client)
          → sockets os p ≡ some ((client, self_server), q)
          → begin client self_server ok ≡ some s
          → AllOffered env s turns)
      → main os p ok turns ≡ some t
      → IsJoined t
  unfolding main
  main-IsJoined os p ok turns t offered done = elim (option-cases (sockets os p)) [
    | inl failed ↦ absurd (ground arith)
    | inr (((client, self_server), q), opened) ↦ elim (option-cases (begin client self_server ok)) [
      | inl failed ↦ absurd (ground arith)
      | inr (s, begun) ↦
          play-IsJoined env turns s t (begin-IsJoined client self_server ok s begun)
            (offered client self_server q s opened begun) (ground arith)
    ]
  ]
