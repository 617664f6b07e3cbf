-- ===== src/Server/Start.antt =====
-- main() of server/server.cpp.
mod Tests
use tcp_labs.Base.{
  ℕ, ◌≡◌, refl, Bool, true, false, List, [], ◌∷◌, Option, none, some, if◌then◌else◌, Bool-cases,
  inl, inr, arith,
}
use mathlib.Core.Option.{some-injective}
use mathlib.Core.Path.{subst}
use tcp_labs.Base.Cases.{option-cases}
use tcp_labs.Base.Maps.{count_value}
use tcp_labs.Protocol.Dispatch.{Received}
use tcp_labs.Socket.System.{Os, Process, Run, pure, plain, ◌>>=◌, ◌>>◌}
use tcp_labs.Socket.Address.{server_port, tcp_socket, bind_port, listen}
use tcp_labs.Socket.Epoll.{Epoll, added, new_epoll, insert, set_server, Wake, run, is_watched}
use tcp_labs.Server.Environment.{Environment}
use tcp_labs.Server.Actions.{Server}
use tcp_labs.Server.Loop.{visit, IsServing, AllOffered, run-IsServing}

-- The listening socket.
unfoldable pub listener : (os : Os) → Run os ℕ
unfolding tcp_socket bind_port listen
listener os = do
  server ← tcp_socket os
  plain os (os.set_reuse server)
  bind_port os server server_port
  listen os server
  pure os server

module _ (env : Environment) where
  -- The tables of the program at its start, with the database as it stands on disk.
  abbrev pub fresh : env.Db → Server env
  fresh db = record { lookup = []; db = db; sent = []; closed_conns = [] }

  -- The thread of the server, on its listener and the status of the first epoll_ctl().
  unfoldable pub serve : env.Db → ℕ → Bool → List (Wake Received) → Option (Server env × Epoll)
  unfolding run set_server
  serve db server ok wakes = elim (set_server new_epoll server ok) [
    | none ↦ none
    | some engine ↦ run (visit env) (fresh db, engine) wakes
  ]

  unfoldable pub main :
      (os : Os) → env.Db → Process os → Bool → List (Wake Received) → Option (Server env × Epoll)
  unfolding listener serve
  main os db p ok wakes = elim (listener os p) [
    | none ↦ none
    | some (server, q) ↦ serve db server ok wakes
  ]

  -- The loop begins with its listener in the interest list.
  abbrev pub first_epoll : ℕ → Epoll
  first_epoll server = insert (record new_epoll { server = some server }) server

  begins : (db : env.Db) (engine : Epoll) → IsServing env (fresh db, engine)
  unfolding count_value
  begins db engine = record { single = λ c. omega arith; online = λ c. inl refl }

  serve-IsServing :
      (db : env.Db) (server : ℕ) (ok : Bool) (wakes : List (Wake Received)) (t : Server env × Epoll)
      → AllOffered env (fresh db, first_epoll server) wakes
      → serve db server ok wakes ≡ some t
      → IsServing env t
  unfolding serve set_server
  serve-IsServing db server true wakes t offered done =
      run-IsServing env wakes (fresh db, first_epoll server) t (begins db (first_epoll server))
        offered done
  serve-IsServing db server false wakes t offered done = absurd (ground arith)

  -- From the start of the server on, whatever its database holds and its calls give, if epoll_wait()
  -- gives descriptors of the interest list and a login comes only on a connection that has no
  -- account, every account is on a connection of the interest list, and no two are on one, as long as
  -- the process does not end.
  pub main-IsServing :
      (os : Os) (db : env.Db) (p : Process os) (ok : Bool) (wakes : List (Wake Received))
      (t : Server env × Epoll)
      → ((server : ℕ) (q : Process os)
          → listener os p ≡ some (server, q)
          → AllOffered env (fresh db, first_epoll server) wakes)
      → main os db p ok wakes ≡ some t
      → IsServing env t
  unfolding main
  main-IsServing os db p ok wakes t offered done = elim (option-cases (listener os p)) [
    | inl failed ↦ absurd (ground arith)
    | inr ((server, q), opened) ↦
        serve-IsServing db server ok wakes t (offered server q opened) (ground arith)
  ]
