-- ===== src/Client/Input.antt =====
-- What the whole input of the client sends: the loop of main() in client/client.cpp.
use tcp_labs.Base.{
  ℕ, ◌≡◌, refl, ap, sym, ◌∙◌, ◌⊎◌, inl, inr, true, List, [], ◌∷◌, ◌++◌, some, arith,
}
use mathlib.Core.Option.{some-injective}
use mathlib.Core.List.{append_assoc}
use mathlib.Core.Path.{subst}
use tcp_labs.Base.Cases.{option-cases}
use tcp_labs.Base.Maps.{codes, find}
use tcp_labs.Protocol.Bytes.{Bytes}
use tcp_labs.Protocol.Structs.{
  FileSendAccept, RawData, type_id, file_send_request, file_send_accept,
}
use tcp_labs.Protocol.Dispatch.{server, client, is_new_case}
use tcp_labs.Server.Environment.{c_str}
use tcp_labs.Client.Environment.{Environment, Word, copy_string, read_word}
use tcp_labs.Client.Actions.{Client}
use tcp_labs.Client.Commands.{
  fluorine, wang, Command, register_command, recover_command, login_command, active_command,
  send_command, p2p_command, filesend_command, file_accept_command, Request, worded, up_request,
  down_request, up2_request, down2_request, ignored_request, deliver, active, log_in, sendmsg,
  p2p_request_command, file_send, file_accept, run_command, up, down, up2, down2, fixed_word,
  intel_request, run_request,
}
use tcp_labs.Client.Routes.{IsRouted, sendmsg-server, run_command-IsRouted, file_accept-IsRouted}
use tcp_labs.Client.Peers.{sendmsg-peer}

module _ (env : Environment) where
  -- A message to the server, of a type that it takes, or to a peer, of a type that a client takes.
  abbrev pub IsRoute : Client → ℕ → RawData → Type 0
  IsRoute s conn m =
      ((conn ≡ s.server_conn) × (is_new_case server (type_id m) ≡ true))
      ⊎ ((k : Bytes) × (find k s.lookup ≡ some conn) × (is_new_case client (type_id m) ≡ true))

  abbrev pub AllRouted : Client → List (ℕ × RawData) → Type 0
  AllRouted s [] = Unit {0}
  AllRouted s ((conn, m) ∷ sent) = IsRoute s conn m × AllRouted s sent

  -- The connections stay, and every message is routed by them.
  pub record Sends (s s' : Client) : Type 0 where
    pub server_eq : s'.server_conn ≡ s.server_conn
    pub lookup_eq : s'.lookup ≡ s.lookup
    pub engine_eq : s'.engine ≡ s.engine
    pub newer : List (ℕ × RawData)
    pub sent_eq : s'.sent ≡ newer ++ s.sent
    pub routed : AllRouted s newer

  AllRouted-append :
      (s : Client) (xs ys : List (ℕ × RawData))
      → AllRouted s xs
      → AllRouted s ys
      → AllRouted s (xs ++ ys)
  AllRouted-append s [] ys h k = k
  AllRouted-append s ((conn, m) ∷ xs) ys h k = (h.0, AllRouted-append s xs ys h.1 k)

  AllRouted-same :
      (s t : Client) (xs : List (ℕ × RawData))
      → t.server_conn ≡ s.server_conn
      → t.lookup ≡ s.lookup
      → AllRouted t xs
      → AllRouted s xs
  AllRouted-same s t [] e f h = tt
  AllRouted-same s t ((conn, m) ∷ xs) e f (inl (at_server, takes), h) =
      (inl (at_server ∙ e, takes), AllRouted-same s t xs e f h)
  AllRouted-same s t ((conn, m) ∷ xs) e f (inr (k, found, takes), h) =
      (inr (k, ap (find k) (sym f) ∙ found, takes), AllRouted-same s t xs e f h)

  Sends-refl : (s : Client) → Sends s s
  Sends-refl s = record {
    server_eq = refl;
    lookup_eq = refl;
    engine_eq = refl;
    newer = [];
    sent_eq = refl;
    routed = tt;
  }

  Sends-trans : (s t u : Client) → Sends s t → Sends t u → Sends s u
  Sends-trans s t u p q = record {
    server_eq = q.server_eq ∙ p.server_eq;
    lookup_eq = q.lookup_eq ∙ p.lookup_eq;
    engine_eq = q.engine_eq ∙ p.engine_eq;
    newer = q.newer ++ p.newer;
    sent_eq = q.sent_eq ∙ ap (◌++◌ q.newer) p.sent_eq ∙ sym (append_assoc q.newer p.newer s.sent);
    routed =
        AllRouted-append s q.newer p.newer
          (AllRouted-same s t q.newer p.server_eq p.lookup_eq q.routed) p.routed;
  }

  abbrev SameConns : Client → Client → Type 0
  SameConns s s' =
      (s'.server_conn ≡ s.server_conn) × (s'.lookup ≡ s.lookup) × (s'.engine ≡ s.engine)

  -- One message more.
  IsRouted-Sends : (s s' : Client) → SameConns s s' → IsRouted env s s' → Sends s s'
  IsRouted-Sends s s' (e, f, g) (conn, m, sent, route) = record {
    server_eq = e;
    lookup_eq = f;
    engine_eq = g;
    newer = (conn, m) ∷ [];
    sent_eq = sent;
    routed = (route, tt);
  }

  same_conns : (s c s' : Client) → some c ≡ some s' → SameConns s c → SameConns s s'
  same_conns s c s' e h = subst (SameConns s) (some-injective c s' e) h

  sendmsg-SameConns :
      (s : Client) (receiver : Word 32) (text : Word 512)
      → SameConns s (sendmsg env s receiver text)
  sendmsg-SameConns s receiver text =
      elim (option-cases (find (c_str (read_word env 32 receiver)) s.lookup)) [
        | inl h ↦
            let sent = sendmsg-server env s receiver text h in
            (ap (λ c. c.server_conn) sent, ap (λ c. c.lookup) sent, ap (λ c. c.engine) sent)
        | inr (conn, h) ↦
            let sent = sendmsg-peer env s receiver text conn h in
            (ap (λ c. c.server_conn) sent, ap (λ c. c.lookup) sent, ap (λ c. c.engine) sent)
      ]

  file_accept-SameConns :
      (s s' : Client) (path : Bytes) → file_accept env s path ≡ some s' → SameConns s s'
  unfolding file_accept
  file_accept-SameConns s s' path e = elim (option-cases (find (c_str s.pending.sender) s.lookup)) [
    | inl h ↦ absurd (ground arith)
    | inr (conn, h) ↦
        let raw : FileSendAccept = record s.pending {
          udp_port = env.receive_port path s.pending.file_length;
        } in
        same_conns s (deliver env (record s { pending = raw }) conn (file_send_accept raw)) s'
          (ground arith) (refl, refl, refl)
  ]

  file_send-SameConns :
      (s s' : Client) (receiver : Word 32) (path : Word 256)
      → file_send env s receiver path ≡ some s'
      → SameConns s s'
  unfolding file_send
  file_send-SameConns s s' receiver path e =
      elim (option-cases (find (c_str (read_word env 32 receiver)) s.lookup)) [
        | inl h ↦ absurd (ground arith)
        | inr (conn, h) ↦
            let m = file_send_request (record {
              sender = copy_string env 32 s.account;
              receiver = read_word env 32 receiver;
              file_path = read_word env 256 path;
              file_length = env.length_of_file (c_str (read_word env 256 path));
            }) in
            same_conns s (deliver env s conn m) s' (ground arith) (refl, refl, refl)
      ]

  run_command-SameConns :
      (s s' : Client) (command : Command) → run_command env s command ≡ some s' → SameConns s s'
  unfolding run_command active log_in p2p_request_command
  run_command-SameConns s s' (register_command a p n) e = same_conns s _ s' e (refl, refl, refl)
  run_command-SameConns s s' (recover_command a p n) e = same_conns s _ s' e (refl, refl, refl)
  run_command-SameConns s s' (login_command a p) e = same_conns s _ s' e (refl, refl, refl)
  run_command-SameConns s s' active_command e = same_conns s _ s' e (refl, refl, refl)
  run_command-SameConns s s' (send_command receiver text) e =
      same_conns s _ s' e (sendmsg-SameConns s receiver text)
  run_command-SameConns s s' (p2p_command receiver) e = same_conns s _ s' e (refl, refl, refl)
  run_command-SameConns s s' (filesend_command receiver path) e =
      file_send-SameConns s s' receiver path e
  run_command-SameConns s s' (file_accept_command path) e = file_accept-SameConns s s' path e

  -- A command with fixed words.
  to_server-Sends :
      (s : Client) (m : RawData) (c : Client)
      → SameConns s c
      → c.sent ≡ (s.server_conn, m) ∷ s.sent
      → is_new_case server (type_id m) ≡ true
      → Sends s c
  to_server-Sends s m c (e, f, g) sent takes = record {
    server_eq = e;
    lookup_eq = f;
    engine_eq = g;
    newer = (s.server_conn, m) ∷ [];
    sent_eq = sent;
    routed = (inl (refl, takes), tt);
  }

  down-Sends : (s : Client) → Sends s (down env s)
  unfolding down log_in is_new_case type_id
  down-Sends s = to_server-Sends s _ (down env s) (refl, refl, refl) refl refl

  up-Sends : (s : Client) → Sends s (up env s)
  unfolding up log_in p2p_request_command is_new_case type_id
  up-Sends s =
      let entered = log_in env s fluorine wang in
      Sends-trans s entered (up env s) (to_server-Sends s _ entered (refl, refl, refl) refl refl)
        (to_server-Sends entered _ (up env s) (refl, refl, refl) refl refl)

  up2-Sends : (s s' : Client) → up2 env s ≡ some s' → Sends s s'
  unfolding up2 is_new_case type_id
  up2-Sends s s' e =
      elim (option-cases (find (c_str (fixed_word env 32 (codes "mike"))) s.lookup)) [
        | inl h ↦ absurd (ground arith)
        | inr (conn, h) ↦
            let m = file_send_request (intel_request env s) in
            let done : some (deliver env s conn m) ≡ some s' = ground arith in
            subst (Sends s) (some-injective (deliver env s conn m) s' done) (record {
              server_eq = refl;
              lookup_eq = refl;
              engine_eq = refl;
              newer = (conn, m) ∷ [];
              sent_eq = refl;
              routed = (inr (c_str (fixed_word env 32 (codes "mike")), h, refl), tt);
            })
      ]

  down2-Sends : (s s' : Client) → down2 env s ≡ some s' → Sends s s'
  unfolding down2
  down2-Sends s s' e =
      let same = file_accept-SameConns s s' (codes "/home/mike/ggi.tgz") e in
      IsRouted-Sends s s' same (file_accept-IsRouted env s s' (codes "/home/mike/ggi.tgz") e)

  pub run_request-Sends :
      (s s' : Client) (request : Request) → run_request env s request ≡ some s' → Sends s s'
  unfolding run_request
  run_request-Sends s s' (worded command) e =
      let same = run_command-SameConns s s' command e in
      IsRouted-Sends s s' same (run_command-IsRouted env s s' command e)
  run_request-Sends s s' up_request e =
      subst (Sends s) (some-injective (up env s) s' e) (up-Sends s)
  run_request-Sends s s' down_request e =
      subst (Sends s) (some-injective (down env s) s' e) (down-Sends s)
  run_request-Sends s s' up2_request e = up2-Sends s s' e
  run_request-Sends s s' down2_request e = down2-Sends s s' e
  run_request-Sends s s' ignored_request e = subst (Sends s) (some-injective s s' e) (Sends-refl s)
