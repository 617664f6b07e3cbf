-- ===== src/Client/Threads.antt =====
-- The two threads of client/client.cpp: the loop of main() over its input, and that of its Epoll. They
-- take turns; one command or one event is a turn.
use tcp_labs.Base.{ℕ, List, [], ◌∷◌, Option, none, some}
use tcp_labs.Protocol.Dispatch.{Received}
use tcp_labs.Socket.Epoll.{Epoll, Wake, round}
use tcp_labs.Client.Environment.{Environment}
use tcp_labs.Client.Actions.{Client, visitor}
use tcp_labs.Client.Commands.{Request, run_request}

-- A command, or an event with the descriptor that socket() gives then.
pub data Turn : Type 0 where
  commanded : Request → Turn
  woken : Wake (ℕ × Received) → Turn

module _ (env : Environment) where
  -- visitor() as the loop calls it, with the Epoll that it changes in `global`.
  unfoldable pub visit : Client × Epoll → ℕ → ℕ × Received → Option (Client × Epoll)
  unfolding visitor
  visit (s, e) conn (new_conn, got) =
      elim (visitor env (record s { engine = e }) new_conn conn got) [
        | none ↦ none
        | some s' ↦ some (s', s'.engine)
      ]

  unfoldable pub take_turn : Client → Turn → Option Client
  unfolding run_request round
  take_turn s (commanded request) = run_request env s request
  take_turn s (woken wake) = elim (round visit (s, s.engine) wake) [
    | none ↦ none
    | some (s', e) ↦ some (record s' { engine = e })
  ]

  unfoldable pub play : Client → List Turn → Option Client
  unfolding take_turn
  play s [] = some s
  play s (turn ∷ turns) = elim (take_turn s turn) [ none ↦ none | some s' ↦ play s' turns ]
