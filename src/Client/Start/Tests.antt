-- ===== src/Client/Start/Tests.antt =====
-- A run of the client: a command, a connection that comes, and the login of a peer on it.
use tcp_labs.Base.{ℕ, ◌∙◌, ◌≡◌, refl, inl, inr, true, List, [], ◌∷◌, some}
use mathlib.Core.Path.{subst, ap}
use mathlib.Core.Option.{some-injective}
use tcp_labs.Base.Maps.{count_value}
use tcp_labs.Protocol.Structs.{p2p_login}
use tcp_labs.Protocol.Dispatch.{received, closed}
use tcp_labs.Socket.System.{Process}
use tcp_labs.Socket.Kernel.{test_os, idle}
use tcp_labs.Socket.Epoll.{insert, added, is_server, accept, ready, round, is_watched}
use tcp_labs.Client.Actions.{Client, p2p_login_action, action, visitor}
use tcp_labs.Client.Commands.{active_command, worded, active, run_command, run_request}
use tcp_labs.Client.Tests.{test_env, bob_name}
use tcp_labs.Client.Threads.{Turn, commanded, woken, visit, take_turn, play}
use tcp_labs.Client.Joined.{IsJoined, AllOffered}
use tcp_labs.Client.Start.{blank_accept, sockets, begin, main, main-IsJoined}

-- The server is on 3, the listener is 4, and bob comes on 5.
abbrev first : Client
first = record {
  account = [];
  passwd = [];
  server_conn = 3;
  lookup = [];
  pending = blank_accept;
  engine = record { server = some 4; ctl = added 3 ∷ added 4 ∷ [] };
  connected = [];
  sent = [];
  transfers = [];
  closed_conns = [];
}

abbrev asked : Client
asked = active test_env first

abbrev accepted : Client
accepted = record asked { engine = insert asked.engine 5 }

abbrev joined : Client
joined = p2p_login_action accepted 5 bob_name

abbrev last_turns : List Turn
last_turns = woken (ready 5 (some (6, 16)) (9, received (p2p_login bob_name) [])) ∷ []

abbrev later_turns : List Turn
later_turns = woken (ready 4 (some (5, 16)) (9, closed)) ∷ last_turns

abbrev turns : List Turn
turns = commanded (worded active_command) ∷ later_turns

last_turns-AllOffered : AllOffered test_env accepted last_turns
unfolding active insert is_watched count_value
last_turns-AllOffered = (
  inr (record {
    watched = refl;
    socket = record { free = refl; apart = refl; real = refl };
    login = λ r rest e. record { free = refl; apart = refl; real = refl };
  }),
  λ t e. tt,
)

later_turns-AllOffered : AllOffered test_env asked later_turns
unfolding take_turn round is_server accept active
later_turns-AllOffered = (
  inl refl,
  λ t e.
      subst (λ s. AllOffered test_env s last_turns) (some-injective accepted t e)
        last_turns-AllOffered,
)

turns-AllOffered_at_first : AllOffered test_env first turns
unfolding take_turn run_request run_command
turns-AllOffered_at_first = (
  tt,
  λ t e.
      subst (λ s. AllOffered test_env s later_turns) (some-injective asked t e)
        later_turns-AllOffered,
)

turns-AllOffered :
    (client self_server : ℕ) (q : Process test_os) (s : Client)
    → sockets test_os idle ≡ some ((client, self_server), q)
    → begin client self_server true ≡ some s
    → AllOffered test_env s turns
unfolding sockets begin
turns-AllOffered client self_server q s opened begun =
    let same =
      some-injective ((3, 4), record idle { world = 4 }) ((client, self_server), q) opened in
    let started : some first ≡ some s = ap (λ r. begin r.0.0 r.0.1 true) same ∙ begun in
    subst (λ u. AllOffered test_env u turns) (some-injective first s started)
      turns-AllOffered_at_first

main-IsJoined_example : IsJoined joined
unfolding main sockets begin play take_turn run_request run_command round is_server accept visit
    visitor action
main-IsJoined_example = main-IsJoined test_env test_os idle true turns joined turns-AllOffered refl
