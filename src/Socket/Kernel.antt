-- ===== src/Socket/Kernel.antt =====
-- A system in which no call fails, for the tests: the world is the number of the last descriptor, and
-- the port of a socket is behind 40000.
use tcp_labs.Base.{ℕ, ◌+◌, ◌/◌, ◌*◌, ◌%◌, true, some, []}
use tcp_labs.Socket.System.{Os, Process}

-- The two bytes of a port are swapped.
abbrev pub swap_bytes : ℕ → ℕ
swap_bytes x = x % 256 * 256 + x / 256 % 256

abbrev pub test_os : Os
test_os = record {
  World = ℕ;
  socket = λ kind w. (some (w + 1), w + 1);
  connect = λ fd addr w. (true, w);
  bind = λ fd addr w. (true, w);
  listen = λ fd n w. (true, w);
  close = λ fd w. (true, w);
  getsockname = λ fd w.
      some (record { sin_family = 2; sin_port = swap_bytes (40000 + fd % 1000); sin_addr = 0 });
  getpeername = λ fd w. some (record { sin_family = 2; sin_port = swap_bytes 30000; sin_addr = 0 });
  set_reuse = λ fd w. w;
  set_timeout = λ fd usec w. w;
  send = λ fd bytes w. w;
  fopen = λ path writes w. (some (w + 1), w + 1);
  fclose = λ file w. w;
  file_size = λ path w. some 10;
  htons = swap_bytes;
  ntohs = swap_bytes;
  htonl = λ x. x;
  ntohl = λ x. x;
}

abbrev pub idle : Process test_os
idle = record { world = 2; started = [] }
