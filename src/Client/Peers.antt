-- ===== src/Client/Peers.antt =====
-- The peer-to-peer connection of two clients: P2PRequest::action() and P2PLogin::action() of
-- client/client_dataflow.cpp with sendmsg() of client/client.cpp.
use tcp_labs.Base.{ℕ, ◌≤◌, ◌≡◌, ◌≢◌, refl, ap, sym, ◌∙◌, false, ◌∷◌, ◌++◌, some, ◌==◌, take, arith}
use tcp_labs.Base.Maps.{
  Map, str_eq_refl, find, assign, find-assign, erase_value, count_value, count_value-erase_value,
  find-ne_of_count,
}
use tcp_labs.Protocol.Bytes.{Bytes}
use tcp_labs.Protocol.Structs.{P2pRequest, P2pLogin, p2p_login, send_message}
use tcp_labs.Server.Environment.{c_str}
use tcp_labs.Server.Mail.{c_str-append, c_str-take}
use tcp_labs.Client.Environment.{Environment, Word, copy_string, read_word}
use tcp_labs.Client.Actions.{Client, peer_request_action, p2p_login_action, conn_closed}
use tcp_labs.Client.Commands.{deliver, new_message, sendmsg}

find-assign_same : (k : Bytes) (v : ℕ) (m : Map) → find k (assign k v m) ≡ some v
find-assign_same k v m = ground (arith, find-assign k k v m, str_eq_refl k)

c_str-copy_string :
    (env : Environment) (n : ℕ) (s : Bytes) → c_str (copy_string env n s) ≡ take n (c_str s)
unfolding copy_string
c_str-copy_string env n s =
    c_str-take n (s ++ 0 ∷ env.behind n s) ∙ ap (take n) (c_str-append s (env.behind n s))

c_str-read_word :
    (env : Environment) (n : ℕ) (w : Word n) → c_str (read_word env n w) ≡ take n (c_str w.letters)
unfolding read_word
c_str-read_word env n w =
    c_str-take n (w.letters ++ 0 ∷ env.memory n)
    ∙ ap (take n) (c_str-append w.letters (env.memory n))

-- When a connection is closed that is not the server's and has at most one account, no account is on
-- it any more, and the client keeps the connection to its server.
pub conn_closed_lem :
    (s : Client) (conn : ℕ) (k : Bytes)
    → count_value conn s.lookup ≤ 1
    → (conn == s.server_conn) ≡ false
    → ((conn_closed s conn).server_conn ≡ s.server_conn)
      × (find k (conn_closed s conn).lookup ≢ some conn)
unfolding conn_closed
conn_closed_lem s conn k one other =
    let gone : (conn_closed s conn).lookup ≡ erase_value conn s.lookup = ground arith in
    (
      ground arith,
      find-ne_of_count k conn (conn_closed s conn).lookup (
          ap (count_value conn) gone
          ∙ (ground (arith, one, count_value-erase_value conn conn s.lookup))),
    )

module _ (env : Environment) where
  -- A message to an account with a connection goes there.
  pub sendmsg-peer :
      (s : Client) (receiver : Word 32) (text : Word 512) (conn : ℕ)
      → find (c_str (read_word env 32 receiver)) s.lookup ≡ some conn
      → sendmsg env s receiver text
        ≡ deliver env s conn (send_message (new_message env s receiver text))
  unfolding sendmsg new_message
  sendmsg-peer s receiver text conn h = ground arith

  -- `bob` takes a request and answers it on the connection that he makes with his name as a login;
  -- `ann` takes that login on a connection of hers. Then his message to the sender of the request and
  -- her message to his account go on these connections, by the first 32 bytes of the names.
  pub p2p_direct :
      (ann bob : Client) (r : P2pRequest) (new_conn conn : ℕ) (to_ann to_bob : Word 32)
      (text : Word 512)
      → c_str r.sender ≡ take 32 (c_str to_ann.letters)
      → take 32 (c_str bob.account) ≡ take 32 (c_str to_bob.letters)
      → let bob' = peer_request_action env bob new_conn r in
        let login : P2pLogin = record { peer = copy_string env 32 bob.account } in
        let ann' = p2p_login_action ann conn login in
        (bob'.sent ≡ (new_conn, p2p_login login) ∷ bob.sent)
        × (sendmsg env bob' to_ann text
            ≡ deliver env bob' new_conn (send_message (new_message env bob' to_ann text)))
        × (sendmsg env ann' to_bob text
            ≡ deliver env ann' conn (send_message (new_message env ann' to_bob text)))
  unfolding peer_request_action p2p_login_action
  p2p_direct ann bob r new_conn conn to_ann to_bob text from_ann from_bob =
      let login : P2pLogin = record { peer = copy_string env 32 bob.account } in
      (
        refl,
        sendmsg-peer _ to_ann text new_conn (
            ap (λ k. find k (assign (c_str r.sender) new_conn bob.lookup))
              (c_str-read_word env 32 to_ann ∙ sym from_ann)
            ∙ find-assign_same (c_str r.sender) new_conn bob.lookup),
        sendmsg-peer _ to_bob text conn (
            ap (λ k. find k (p2p_login_action ann conn login).lookup)
              (c_str-read_word env 32 to_bob
                ∙ sym from_bob
                ∙ sym (c_str-copy_string env 32 bob.account))
            ∙ find-assign_same (c_str login.peer) conn ann.lookup),
      )
