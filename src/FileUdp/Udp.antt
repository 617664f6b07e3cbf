-- ===== src/FileUdp/Udp.antt =====
-- class UDP of protocol/file_udp.h: what its receiving calls make of a system call's result.
use tcp_labs.Base.{ℕ, ◌==◌, if◌then◌else◌}

-- What ::recv() and ::recvfrom() give: a datagram with its sender's address, or an errno.
pub data SystemResult (A : Type 0) : Type 0 where
  datagram : A → ℕ → SystemResult A
  errno : ℕ → SystemResult A

-- EAGAIN on Linux: the time limit of the socket has passed.
abbrev pub eagain : ℕ
eagain = 11

-- `true` with the filled buffer and the address, `false`, or a failed assertion.
pub data Received (A : Type 0) : Type 0 where
  got : A → ℕ → Received A
  timed_out : Received A
  failed : Received A

-- UDP::recv() asserts that an error is EAGAIN.
unfoldable pub recv : {A : Type 0} → SystemResult A → Received A
recv (datagram d sender) = got d sender
recv (errno e) = if e == eagain then timed_out else failed

-- UDP::recvfrom() only logs any other error.
unfoldable pub recvfrom : {A : Type 0} → SystemResult A → Received A
recvfrom (datagram d sender) = got d sender
recvfrom (errno e) = timed_out
