-- ===== src/Server/Start/Tests.antt =====
-- The event loop of the server at inputs.
use tcp_labs.Base.{ℕ, ◌≡◌, refl, inl, inr, true, List, [], ◌∷◌, some, take, replicate, arith}
use mathlib.Core.Path.{subst, ap}
use mathlib.Core.Option.{some-injective}
use tcp_labs.Base.Maps.{find, str_eq, count_value, erase_value}
use tcp_labs.Protocol.Structs.{SendMessage, send_message}
use tcp_labs.Protocol.Dispatch.{Received, received, closed}
use tcp_labs.Socket.System.{Process}
use tcp_labs.Socket.Kernel.{test_os, idle}
use tcp_labs.Socket.Epoll.{
  Epoll, added, deleted, insert, erase, is_server, accept, Wake, ready, round, is_watched,
}
use tcp_labs.Server.Environment.{c_str, literal}
use tcp_labs.Server.Actions.{Server}
use tcp_labs.Server.Loop.{visit, IsServing, IsOffered, Served, visit-Served, AllOffered}
use tcp_labs.Server.Start.{fresh, first_epoll, listener, main, main-IsServing}
use tcp_labs.Server.Tests.{test_env, ann, ann_in, hello, two_accounts}

-- The listener is 3, ann is on 5, and 6 has been accepted.
abbrev engine : Epoll
engine = record { server = some 3; ctl = added 6 ∷ added 5 ∷ added 3 ∷ [] }

abbrev to_ann : SendMessage
to_ann = record hello { receiver = literal 32 ann }

ann_in-IsServing : IsServing test_env (ann_in, engine)
unfolding is_watched count_value
ann_in-IsServing = record { single = λ c. ground arith; online = λ c. ground arith }

to_ann-IsOffered : IsOffered test_env (ann_in, engine) 6 (received (send_message to_ann) [])
unfolding is_watched count_value
to_ann-IsOffered = record { watched = refl; fresh = λ r rest e. refl }

visit-Served_example :
    Served test_env engine (record ann_in { sent = (5, send_message to_ann) ∷ [] }, engine)
unfolding visit c_str literal take replicate str_eq find
visit-Served_example =
    visit-Served test_env (ann_in, engine)
      (record ann_in { sent = (5, send_message to_ann) ∷ [] }, engine) 6
      (received (send_message to_ann) []) ann_in-IsServing to_ann-IsOffered refl

-- A connection comes, and is closed.
abbrev wakes : List (Wake Received)
wakes = ready 3 (some (5, 16)) closed ∷ ready 5 (some (6, 16)) closed ∷ []

abbrev ended : Server test_env × Epoll
ended = (
  record (fresh test_env two_accounts) { closed_conns = 5 ∷ [] },
  record { server = some 3; ctl = deleted 5 ∷ added 5 ∷ added 3 ∷ [] },
)

abbrev accepted : Server test_env × Epoll
accepted = (fresh test_env two_accounts, insert (first_epoll test_env 3) 5)

wakes-AllOffered_at_three :
    AllOffered test_env (fresh test_env two_accounts, first_epoll test_env 3) wakes
unfolding round is_server accept insert is_watched count_value
wakes-AllOffered_at_three = (
  inl refl,
  λ t e.
      subst (λ u. AllOffered test_env u (ready 5 (some (6, 16)) closed ∷ []))
        (some-injective accepted t e)
        (inr (record { watched = refl; fresh = λ r rest same. refl }), λ u f. tt),
)

wakes-AllOffered :
    (server : ℕ) (q : Process test_os)
    → listener test_os idle ≡ some (server, q)
    → AllOffered test_env (fresh test_env two_accounts, first_epoll test_env server) wakes
unfolding listener
wakes-AllOffered server q e =
    subst (λ fd. AllOffered test_env (fresh test_env two_accounts, first_epoll test_env fd) wakes)
      (ap (λ r. r.0) (some-injective (3, record idle { world = 3 }) (server, q) e))
      wakes-AllOffered_at_three

main-IsServing_example : IsServing test_env ended
unfolding main is_server accept insert erase visit erase_value
main-IsServing_example =
    main-IsServing test_env test_os two_accounts idle true wakes ended wakes-AllOffered refl
