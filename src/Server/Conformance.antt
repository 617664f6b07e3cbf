-- ===== src/Server/Conformance.antt =====
-- The types of the messages that the server sends: NEWCASE of client/client_dataflow.cpp.
use tcp_labs.Base.{ℕ, ◌≡◌, true, List, some}
use tcp_labs.Protocol.Structs.{RawData, type_id}
use tcp_labs.Protocol.Dispatch.{client, is_new_case, Received}
use tcp_labs.Server.Environment.{Environment}
use tcp_labs.Server.Actions.{Server, visitor}
use tcp_labs.Server.Sending.{All, visitor-All}

-- Of a type that a client takes.
abbrev pub ForClient : ℕ → RawData → Type 0
ForClient conn m = is_new_case client (type_id m) ≡ true

abbrev pub AllForClient : List (ℕ × RawData) → Type 0
AllForClient = All ForClient

module _ (env : Environment) where
  -- If all messages sent so far are of types that a client takes, so are all after whatever
  -- visitor() takes, a message whose stream ends within it too, if the process does not end there.
  pub visitor-AllForClient :
      (s s' : Server env) (conn : ℕ) (got : Received)
      → AllForClient s.sent
      → visitor env s conn got ≡ some s'
      → AllForClient s'.sent
  visitor-AllForClient s s' conn got h e =
      visitor-All env ForClient s s' conn got (λ m takes. takes) (λ k c at_c m takes. takes) h e
