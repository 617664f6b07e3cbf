-- ===== src/Client/Joined.antt =====
-- The table of the client, its connection to the server and the interest list of its Epoll, over the
-- turns of its two threads.
use tcp_labs.Base.{
  ℕ, ◌≤◌, ◌≡◌, refl, ap, sym, ◌⊎◌, inl, inr, true, false, List, [], ◌∷◌, some, ◌==◌, if◌then◌else◌,
  Bool-cases, suc, arith,
}
use mathlib.Core.Path.{subst}
use mathlib.Core.Option.{some-injective}
use tcp_labs.Base.Cases.{option-cases}
use tcp_labs.Base.Maps.{Map, find, assign, count_value, count_value-erase_value}
use tcp_labs.Protocol.Bytes.{Bytes}
use tcp_labs.Protocol.Structs.{
  P2pLogin, op_status, login_reply, send_message, p2p_request, p2p_login, file_send_request,
  file_send_accept, find_active_reply,
}
use tcp_labs.Protocol.Dispatch.{Received, received, closed}
use tcp_labs.Socket.Epoll.{insert, erase, is_server, accept, no_event, ready, round, is_watched}
use tcp_labs.Server.Environment.{c_str}
use tcp_labs.Server.Closing.{IsSingle}
use tcp_labs.Client.Environment.{Environment}
use tcp_labs.Client.Actions.{
  Client, no_descriptor, peer_request_action, p2p_login_action, file_send_request_action,
  file_send_accept_action, action, conn_closed, visitor,
}
use tcp_labs.Client.Input.{run_request-Sends}
use tcp_labs.Client.Threads.{Turn, commanded, woken, visit, take_turn, play}

-- An assignment adds at most one pair.
count_value-assign_le :
    (u v : ℕ) (k : Bytes) (m : Map)
    → count_value u (assign k v m) ≤ (if u == v then suc (count_value u m) else count_value u m)
unfolding count_value assign
count_value-assign_le u v k [] = ground arith
count_value-assign_le u v k ((j, w) ∷ m) = ground (arith, count_value-assign_le u v k m)

-- Every account is on a connection of the interest list, no two are on one, and none is on that of the
-- server, which is in the list too until it is lost.
pub record IsJoined (s : Client) : Type 0 where
  pub single : IsSingle s.lookup
  pub online : (c : ℕ) → (count_value c s.lookup ≡ 0) ⊎ (is_watched s.engine.ctl c ≡ true)
  pub apart : count_value s.server_conn s.lookup ≡ 0
  pub real : count_value no_descriptor s.lookup ≡ 0
  pub server_online :
      (s.server_conn ≡ no_descriptor) ⊎ (is_watched s.engine.ctl s.server_conn ≡ true)

-- A descriptor with no account, which is not that of the server.
pub record IsFresh (s : Client) (c : ℕ) : Type 0 where
  pub free : count_value c s.lookup ≡ 0
  pub apart : (c == s.server_conn) ≡ false
  pub real : (c == no_descriptor) ≡ false

-- epoll_wait() gives descriptors of the interest list, socket() one that is not in use, and the login
-- of a peer comes on a connection that has no account.
pub record IsOffered (s : Client) (fd new_conn : ℕ) (got : Received) : Type 0 where
  pub watched : is_watched s.engine.ctl fd ≡ true
  pub socket : IsFresh s new_conn
  pub login : (r : P2pLogin) (rest : List ℕ) → got ≡ received (p2p_login r) rest → IsFresh s fd

-- One account more, on a connection that is in the interest list now.
connects :
    (s t : Client) (k : Bytes) (c : ℕ)
    → IsJoined s
    → IsFresh s c
    → t.lookup ≡ assign k c s.lookup
    → t.server_conn ≡ s.server_conn
    → ((d : ℕ) → is_watched s.engine.ctl d ≡ true → is_watched t.engine.ctl d ≡ true)
    → is_watched t.engine.ctl c ≡ true
    → IsJoined t
connects s t k c v new lookup server grows here =
    let counted : (d : ℕ)
        → count_value d t.lookup
          ≤ (if d == c then suc (count_value d s.lookup) else count_value d s.lookup) =
      λ d.
        subst
          (λ m.
            count_value d m
            ≤ (if d == c then suc (count_value d s.lookup) else count_value d s.lookup))
          (sym lookup) (count_value-assign_le d c k s.lookup) in
    record {
      single = λ d. ground (arith, counted d, v.single d, new.free);
      online = λ d. ground (arith, counted d, v.online d, grows d, here);
      apart = ground (
        arith,
        counted s.server_conn,
        v.apart,
        new.apart,
        ap (λ d. count_value d t.lookup) server,
      );
      real = ground (arith, counted no_descriptor, v.real, new.real);
      server_online = ground (
        arith,
        server,
        v.server_online,
        grows s.server_conn,
        ap (is_watched t.engine.ctl) server,
      );
    }

closes : (s : Client) (conn : ℕ) → IsJoined s → IsJoined (conn_closed s conn)
unfolding conn_closed erase is_watched
closes s conn v = elim (Bool-cases (conn == s.server_conn)) [
  | inl lost ↦ rw lost (record {
    single = v.single;
    online = λ c. ground (arith, v.online c, v.apart);
    apart = v.real;
    real = v.real;
    server_online = inl refl;
  })
  | inr peer ↦ rw peer (record {
    single = λ c. ground (arith, v.single c, count_value-erase_value c conn s.lookup);
    online = λ c. ground (arith, v.single c, v.online c, count_value-erase_value c conn s.lookup);
    apart = ground (arith, v.apart, count_value-erase_value s.server_conn conn s.lookup);
    real = ground (arith, v.real, count_value-erase_value no_descriptor conn s.lookup);
    server_online = ground (arith, v.server_online, peer);
  })
]

-- The table, the connection to the server and the Epoll stay.
stays :
    (s t : Client)
    → IsJoined s
    → t.lookup ≡ s.lookup
    → t.server_conn ≡ s.server_conn
    → t.engine ≡ s.engine
    → IsJoined t
stays s t v lookup server engine =
    let counted : (d : ℕ) → count_value d t.lookup ≡ count_value d s.lookup =
      λ d. ap (count_value d) lookup in
    let seen : (d : ℕ) → is_watched t.engine.ctl d ≡ is_watched s.engine.ctl d =
      λ d. ap (λ e. is_watched e.ctl d) engine in
    record {
      single = λ d. ground (arith, v.single d, counted d);
      online = λ d. ground (arith, v.online d, counted d, seen d);
      apart =
          ground (arith, v.apart, counted s.server_conn, ap (λ d. count_value d t.lookup) server);
      real = ground (arith, v.real, counted no_descriptor);
      server_online =
          ground (
            arith,
            v.server_online,
            server,
            seen s.server_conn,
            ap (is_watched t.engine.ctl) server,
          );
    }

module _ (env : Environment) where
  becomes : (s t : Client) → some s ≡ some t → IsJoined s → IsJoined t
  becomes s t e v = subst IsJoined (some-injective s t e) v

  visitor-IsJoined :
      (s t : Client) (new_conn conn : ℕ) (got : Received)
      → IsJoined s
      → IsOffered s conn new_conn got
      → visitor env s new_conn conn got ≡ some t
      → IsJoined t
  unfolding visitor action peer_request_action p2p_login_action file_send_request_action
      file_send_accept_action insert is_watched
  visitor-IsJoined s t new_conn conn closed v o e = becomes _ t e (closes s conn v)
  visitor-IsJoined s t new_conn conn (received (op_status r) rest) v o e = becomes s t e v
  visitor-IsJoined s t new_conn conn (received (login_reply r) rest) v o e = becomes s t e v
  visitor-IsJoined s t new_conn conn (received (send_message r) rest) v o e = becomes s t e v
  visitor-IsJoined s t new_conn conn (received (find_active_reply r) rest) v o e = becomes s t e v
  visitor-IsJoined s t new_conn conn (received (p2p_request r) rest) v o e =
      becomes (peer_request_action env s new_conn r) t e (
        connects s _ (c_str r.sender) new_conn v o.socket refl refl (λ d h. ground (arith, h))
          (ground arith))
  visitor-IsJoined s t new_conn conn (received (p2p_login r) rest) v o e =
      becomes (p2p_login_action s conn r) t e
        (connects s _ (c_str r.peer) conn v (o.login r rest refl) refl refl (λ d h. h) o.watched)
  visitor-IsJoined s t new_conn conn (received (file_send_request r) rest) v o e =
      becomes (file_send_request_action s r) t e (stays s _ v refl refl refl)
  visitor-IsJoined s t new_conn conn (received (file_send_accept r) rest) v o e =
      elim (option-cases (find (c_str r.receiver) s.lookup)) [
        | inl unknown_peer ↦ absurd (ground arith)
        | inr (peer, at_peer) ↦
            let u : Client = record s {
              transfers = (c_str r.file_path, env.peer_ip peer, r.udp_port) ∷ s.transfers;
            } in
            becomes u t (ground arith) (stays s u v refl refl refl)
      ]
  visitor-IsJoined s t new_conn conn _ v o e = absurd (ground arith)

  abbrev pub IsOfferedTurn : Client → Turn → Type 0
  IsOfferedTurn s (commanded _) = Unit {0}
  IsOfferedTurn s (woken no_event) = Unit {0}
  IsOfferedTurn s (woken (ready fd accepted (new_conn, got))) =
      (is_server s.engine fd ≡ true) ⊎ IsOffered s fd new_conn got

  abbrev pub AllOffered : Client → List Turn → Type 0
  AllOffered s [] = Unit {0}
  AllOffered s (turn ∷ turns) =
      IsOfferedTurn s turn × ((t : Client) → take_turn env s turn ≡ some t → AllOffered t turns)

  take_turn-IsJoined :
      (s t : Client) (turn : Turn)
      → IsJoined s
      → IsOfferedTurn s turn
      → take_turn env s turn ≡ some t
      → IsJoined t
  unfolding take_turn round visit insert is_watched
  take_turn-IsJoined s t (commanded request) v o e =
      let sends = run_request-Sends env s t request e in
      stays s t v sends.lookup_eq sends.server_eq sends.engine_eq
  take_turn-IsJoined s t (woken no_event) v o e = absurd (ground arith)
  take_turn-IsJoined s t (woken (ready fd accepted (new_conn, got))) v o e =
      elim (Bool-cases (is_server s.engine fd)) [
        | inl listener ↦ elim (option-cases (accept accepted)) [
          | inl failed ↦ absurd (ground arith)
          | inr (conn, new) ↦
              becomes (record s { engine = insert s.engine conn }) t (ground arith)
                (record {
                  single = v.single;
                  online = λ c. ground (arith, v.online c);
                  apart = v.apart;
                  real = v.real;
                  server_online = ground (arith, v.server_online);
                })
        ]
        | inr other ↦ elim o [
          | inl listener ↦ absurd (ground arith)
          | inr offered ↦ elim (option-cases (visitor env s new_conn fd got)) [
            | inl failed ↦ absurd (ground arith)
            | inr (u, went) ↦
                becomes u t (ground arith) (visitor-IsJoined s u new_conn fd got v offered went)
          ]
        ]
      ]

  pub play-IsJoined :
      (turns : List Turn) (s t : Client)
      → IsJoined s
      → AllOffered s turns
      → play env s turns ≡ some t
      → IsJoined t
  unfolding play
  play-IsJoined [] s t v o e = becomes s t e v
  play-IsJoined (turn ∷ turns) s t v o e = elim (option-cases (take_turn env s turn)) [
    | inl failed ↦ absurd (ground arith)
    | inr (u, went) ↦
        play-IsJoined turns u t (take_turn-IsJoined s u turn v o.0 went) (o.1 u went) (ground arith)
  ]
