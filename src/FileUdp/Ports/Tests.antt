-- ===== src/FileUdp/Ports/Tests.antt =====
-- A port is opened on a system in which no call fails.
use tcp_labs.Base.{◌^◌, ◌<◌, refl, [], ◌∷◌, some, arith}
use mathlib.Core.Path.{subst}
use mathlib.Core.Option.{some-injective}
use tcp_labs.Socket.System.{Sockaddr, Process, receiving}
use tcp_labs.Socket.Kernel.{test_os, idle}
use tcp_labs.FileUdp.Ports.{open_receive_port}
use tcp_labs.FileUdp.Ports.Binding.{IsOrdered, Opens, open_receive_port-Opens}

pub test_os-IsOrdered : IsOrdered test_os
test_os-IsOrdered = record {
  port_back = λ x h. omega arith;
  small = λ fd w name e.
      subst (λ (n : Sockaddr). n.sin_port < 2 ^ 16) (some-injective _ name e) (omega arith);
}

abbrev pub receiving_ten : Process test_os
receiving_ten = record { world = 4; started = receiving 4 (some 3) 10 ∷ [] }

open_receive_port-Opens_example : Opens test_os 10 40004 idle receiving_ten
unfolding open_receive_port
open_receive_port-Opens_example =
    open_receive_port-Opens test_os (97 ∷ []) 10 40004 idle receiving_ten test_os-IsOrdered refl
