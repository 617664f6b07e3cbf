-- ===== src/Server/Loop.antt =====
-- The server in its event loop: Epoll::visitor() of server/server.cpp with class Epoll around it.
use tcp_labs.Base.{
  ℕ, ◌≡◌, ap, sym, ◌∙◌, ◌⊎◌, inl, inr, true, List, [], ◌∷◌, Option, none, some, Bool-cases, arith,
}
use mathlib.Core.Path.{subst}
use mathlib.Core.Option.{some-injective}
use tcp_labs.Base.Cases.{option-cases}
use tcp_labs.Base.Maps.{find, count_value, count_value-erase_value, find-ne_of_count}
use tcp_labs.Protocol.Bytes.{Bytes}
use tcp_labs.Protocol.Structs.{LoginIn, login_in}
use tcp_labs.Protocol.Dispatch.{Received, received, closed}
use tcp_labs.Socket.Epoll.{
  Epoll, insert, erase, is_server, accept, Wake, no_event, ready, round, run, is_watched,
}
use tcp_labs.Server.Environment.{Environment}
use tcp_labs.Server.Actions.{Server, login_in_action, action, close_conn, visitor}
use tcp_labs.Server.Sessions.{login-count, action-lookup}
use tcp_labs.Server.Closing.{IsSingle, visitor-IsSingle, login_in-cases}
use tcp_labs.Server.Sending.{All, visitor-All}

module _ (env : Environment) where
  -- What visitor() does to its Epoll.
  abbrev pub left : Epoll → ℕ → Received → Epoll
  left e conn closed = erase e conn
  left e conn got = e

  -- visitor() as the loop calls it. `sent` has the messages of this round.
  unfoldable pub visit : Server env × Epoll → ℕ → Received → Option (Server env × Epoll)
  unfolding visitor
  visit (s, e) conn got = elim (visitor env (record s { sent = [] }) conn got) [
    | none ↦ none
    | some s' ↦ some (s', left e conn got)
  ]

  -- Every account is on a connection in the interest list, and no two are on one.
  pub record IsServing (s : Server env × Epoll) : Type 0 where
    pub single : IsSingle s.0.lookup
    pub online : (c : ℕ) → (count_value c s.0.lookup ≡ 0) ⊎ (is_watched s.1.ctl c ≡ true)

  -- epoll_wait() gives descriptors of the interest list, and a login comes on a connection that has
  -- no account.
  pub record IsOffered (s : Server env × Epoll) (fd : ℕ) (got : Received) : Type 0 where
    pub watched : is_watched s.1.ctl fd ≡ true
    pub fresh :
        (r : LoginIn) (rest : List ℕ)
        → got ≡ received (login_in r) rest
        → count_value fd s.0.lookup ≡ 0

  -- What a round leaves: the invariant, and messages on connections of the interest list only.
  pub record Served (e : Epoll) (s : Server env × Epoll) : Type 0 where
    pub serving : IsServing s
    pub to_watched : All (λ c m. is_watched e.ctl c ≡ true) s.0.sent

  visitor-online :
      (s s' : Server env) (e : Epoll) (conn : ℕ) (got : Received)
      → IsSingle s.lookup
      → ((c : ℕ) → (count_value c s.lookup ≡ 0) ⊎ (is_watched e.ctl c ≡ true))
      → is_watched e.ctl conn ≡ true
      → visitor env s conn got ≡ some s'
      → (c : ℕ) → (count_value c s'.lookup ≡ 0) ⊎ (is_watched (left e conn got).ctl c ≡ true)
  unfolding visitor close_conn action erase is_watched
  visitor-online s s' e conn closed one online here done c =
      ground (arith, one c, online c, count_value-erase_value c conn s.lookup)
  visitor-online s s' e conn (received m rest) one online here done c =
      elim (login_in-cases env m) [
        | inl (r, eq) ↦
            let done' : some (login_in_action env s conn r) ≡ some s' =
              ap (action env s conn) (sym eq) ∙ done in
            ground (arith, done', online c, login-count env s conn c r)
        | inr other ↦ ground (arith, online c, action-lookup env s s' conn m other done)
      ]
  visitor-online s s' e conn _ one online here done c = absurd (ground arith)

  abbrev emptied : Server env → Server env
  emptied s = record s { sent = [] }

  -- If every account is on a connection of the interest list, no two are on one, epoll_wait() gives a
  -- connection of the list, and a login comes only on one that has no account, then behind visitor()
  -- the first two hold again, and all messages that it has sent went to connections of the list.
  pub visit-Served :
      (s : Server env × Epoll) (t : Server env × Epoll) (conn : ℕ) (got : Received)
      → IsServing s
      → IsOffered s conn got
      → visit s conn got ≡ some t
      → Served s.1 t
  unfolding visit
  visit-Served (s, e) t conn got v o done = elim (option-cases (visitor env (emptied s) conn got)) [
    | inl failed ↦ absurd (ground arith)
    | inr (s', got') ↦
        let watched : (k : Bytes) (c : ℕ) → find k s.lookup ≡ some c → is_watched e.ctl c ≡ true =
          λ k c at_c. elim (v.online c) [
            | inl none_there ↦ absurd (find-ne_of_count k c s.lookup none_there at_c)
            | inr yes_there ↦ yes_there
          ] in
        let result : some (s', left e conn got) ≡ some t = ground arith in
        subst (Served e) (some-injective (s', left e conn got) t result) (record {
          serving = record {
            single = visitor-IsSingle env (emptied s) s' conn got v.single o.fresh got';
            online = visitor-online (emptied s) s' e conn got v.single v.online o.watched got';
          };
          to_watched =
              visitor-All env (λ c m. is_watched e.ctl c ≡ true) (emptied s) s' conn got
                (λ m takes. o.watched) (λ k c at_c m takes. watched k c at_c) tt got';
        })
  ]

  -- The listener, or a connection as above.
  abbrev pub IsOfferedWake : Server env × Epoll → Wake Received → Type 0
  IsOfferedWake s no_event = Unit {0}
  IsOfferedWake s (ready fd accepted got) = (is_server s.1 fd ≡ true) ⊎ IsOffered s fd got

  abbrev pub AllOffered : Server env × Epoll → List (Wake Received) → Type 0
  AllOffered s [] = Unit {0}
  AllOffered s (wake ∷ wakes) =
      IsOfferedWake s wake
      × ((t : Server env × Epoll) → round visit s wake ≡ some t → AllOffered t wakes)

  insert-IsServing :
      (s : Server env) (e : Epoll) (conn : ℕ) → IsServing (s, e) → IsServing (s, insert e conn)
  unfolding insert is_watched
  insert-IsServing s e conn v = record {
    single = v.single;
    online = λ c. ground (arith, v.online c);
  }

  round-IsServing :
      (s : Server env × Epoll) (t : Server env × Epoll) (wake : Wake Received)
      → IsServing s
      → IsOfferedWake s wake
      → round visit s wake ≡ some t
      → IsServing t
  unfolding round
  round-IsServing s t no_event v o done = absurd (ground arith)
  round-IsServing (s, e) t (ready fd accepted got) v o done = elim (Bool-cases (is_server e fd)) [
    | inl listener ↦ elim (option-cases (accept accepted)) [
      | inl failed ↦ absurd (ground arith)
      | inr (conn, new) ↦
          let result : some (s, insert e conn) ≡ some t = ground arith in
          subst IsServing (some-injective (s, insert e conn) t result) (insert-IsServing s e conn v)
    ]
    | inr other ↦
        let offered : IsOffered (s, e) fd got = elim o [
          | inl listener ↦ absurd (ground arith)
          | inr offered ↦ offered
        ] in
        let result : visit (s, e) fd got ≡ some t = ground arith in
        (visit-Served (s, e) t fd got v offered result).serving
  ]

  -- Over any run of the loop on such calls, that does not end the process, every account stays on a
  -- connection of the interest list, and no two are on one.
  pub run-IsServing :
      (wakes : List (Wake Received)) (s t : Server env × Epoll)
      → IsServing s
      → AllOffered s wakes
      → run visit s wakes ≡ some t
      → IsServing t
  unfolding run
  run-IsServing [] s t v o done = subst IsServing (some-injective s t done) v
  run-IsServing (wake ∷ wakes) s t v o done = elim (option-cases (round visit s wake)) [
    | inl failed ↦ absurd (ground arith)
    | inr (u, went) ↦
        run-IsServing wakes u t (round-IsServing s u wake v o.0 went) (o.1 u went) (ground arith)
  ]
