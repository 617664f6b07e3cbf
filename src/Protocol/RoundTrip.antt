-- ===== src/Protocol/RoundTrip.antt =====
-- A struct read back from its bytes.
use mathlib.Core.List.{append_assoc}
use tcp_labs.Base.{◌≡◌, ◌++◌, length, length-append, arith}
use tcp_labs.Protocol.Bytes.{Bytes, le_bytes, ◌>>=◌, text-append, number-append, length-le_bytes}
use tcp_labs.Protocol.Structs.{
  RawData, registion, op_status, login_in, login_reply, send_message, p2p_request, p2p_login,
  file_send_request, file_send_accept, recover_password, find_active_request, find_active_reply,
  type_id, raw_bytes, IsSized, read_raw, raw_size,
}

pub read_raw-raw_bytes :
    (m : RawData) (rest : Bytes)
    → IsSized m
    → read_raw (type_id m) (raw_bytes m ++ rest) ≡ (m, rest)
unfolding read_raw type_id raw_bytes
read_raw-raw_bytes (registion r) rest h = simp (
  ◌>>=◌,
  append_assoc,
  text-append 32 r.account _ h.0,
  text-append 32 r.pass_md5 _ h.1,
  text-append 32 r.nickname _ h.2,
)
read_raw-raw_bytes (op_status r) rest h =
    simp (◌>>=◌, append_assoc, number-append 4 r.status _ h.0, text-append 32 r.message _ h.1)
read_raw-raw_bytes (login_in r) rest h =
    simp (◌>>=◌, append_assoc, text-append 32 r.account _ h.0, text-append 32 r.pass_md5 _ h.1)
read_raw-raw_bytes (login_reply r) rest h = simp (
  ◌>>=◌,
  append_assoc,
  number-append 4 r.status _ h.0,
  text-append 32 r.message _ h.1,
  text-append 32 r.nickname _ h.2,
)
read_raw-raw_bytes (send_message r) rest h = simp (
  ◌>>=◌,
  append_assoc,
  text-append 32 r.sender _ h.0,
  text-append 32 r.receiver _ h.1,
  number-append 8 r.timestamp _ h.2,
  text-append 512 r.message _ h.3,
)
read_raw-raw_bytes (p2p_request r) rest h = simp (
  ◌>>=◌,
  append_assoc,
  text-append 32 r.sender _ h.0,
  text-append 32 r.receiver _ h.1,
  number-append 4 r.listener_ip _ h.2,
  number-append 4 r.listener_port _ h.3,
)
read_raw-raw_bytes (p2p_login r) rest h = simp (◌>>=◌, text-append 32 r.peer _ h)
read_raw-raw_bytes (file_send_request r) rest h = simp (
  ◌>>=◌,
  append_assoc,
  text-append 32 r.sender _ h.0,
  text-append 32 r.receiver _ h.1,
  text-append 256 r.file_path _ h.2,
  number-append 8 r.file_length _ h.3,
)
read_raw-raw_bytes (file_send_accept r) rest h = simp (
  ◌>>=◌,
  append_assoc,
  text-append 32 r.sender _ h.0,
  text-append 32 r.receiver _ h.1,
  number-append 2 r.udp_port _ h.2,
  text-append 256 r.file_path _ h.3,
  text-append 6 r.padding _ h.4,
  number-append 8 r.file_length _ h.5,
)
read_raw-raw_bytes (recover_password r) rest h = simp (
  ◌>>=◌,
  append_assoc,
  text-append 32 r.account _ h.0,
  text-append 32 r.nickname _ h.1,
  text-append 32 r.new_pass_md5 _ h.2,
)
read_raw-raw_bytes (find_active_request r) rest h = simp (◌>>=◌, text-append 32 r.sender _ h)
read_raw-raw_bytes (find_active_reply r) rest h =
    simp (◌>>=◌, append_assoc, text-append 32 r.peer _ h.0, number-append 1 r.is_active _ h.1)

pub length-raw_bytes : (m : RawData) → IsSized m → length (raw_bytes m) ≡ raw_size (type_id m)
unfolding raw_size type_id raw_bytes
length-raw_bytes (registion r) h =
    omega (
      arith,
      length-append r.account (r.pass_md5 ++ r.nickname),
      length-append r.pass_md5 r.nickname,
    )
length-raw_bytes (op_status r) h =
    omega (arith, length-le_bytes 4 r.status, length-append (le_bytes 4 r.status) r.message)
length-raw_bytes (login_in r) h = omega (arith, length-append r.account r.pass_md5)
length-raw_bytes (login_reply r) h = omega (
  arith,
  length-le_bytes 4 r.status,
  length-append (le_bytes 4 r.status) (r.message ++ r.nickname),
  length-append r.message r.nickname,
)
length-raw_bytes (send_message r) h = omega (
  arith,
  length-le_bytes 8 r.timestamp,
  length-append r.sender (r.receiver ++ (le_bytes 8 r.timestamp ++ r.message)),
  length-append r.receiver (le_bytes 8 r.timestamp ++ r.message),
  length-append (le_bytes 8 r.timestamp) r.message,
)
length-raw_bytes (p2p_request r) h = omega (
  arith,
  length-le_bytes 4 r.listener_ip,
  length-le_bytes 4 r.listener_port,
  length-append r.sender (r.receiver ++ (le_bytes 4 r.listener_ip ++ le_bytes 4 r.listener_port)),
  length-append r.receiver (le_bytes 4 r.listener_ip ++ le_bytes 4 r.listener_port),
  length-append (le_bytes 4 r.listener_ip) (le_bytes 4 r.listener_port),
)
length-raw_bytes (p2p_login r) h = omega (arith)
length-raw_bytes (file_send_request r) h = omega (
  arith,
  length-le_bytes 8 r.file_length,
  length-append r.sender (r.receiver ++ (r.file_path ++ le_bytes 8 r.file_length)),
  length-append r.receiver (r.file_path ++ le_bytes 8 r.file_length),
  length-append r.file_path (le_bytes 8 r.file_length),
)
length-raw_bytes (file_send_accept r) h = omega (
  arith,
  length-le_bytes 2 r.udp_port,
  length-le_bytes 8 r.file_length,
  length-append r.sender (
      r.receiver
      ++ (le_bytes 2 r.udp_port ++ (r.file_path ++ (r.padding ++ le_bytes 8 r.file_length)))),
  length-append r.receiver
      (le_bytes 2 r.udp_port ++ (r.file_path ++ (r.padding ++ le_bytes 8 r.file_length))),
  length-append (le_bytes 2 r.udp_port) (r.file_path ++ (r.padding ++ le_bytes 8 r.file_length)),
  length-append r.file_path (r.padding ++ le_bytes 8 r.file_length),
  length-append r.padding (le_bytes 8 r.file_length),
)
length-raw_bytes (recover_password r) h = omega (
  arith,
  length-append r.account (r.nickname ++ r.new_pass_md5),
  length-append r.nickname r.new_pass_md5,
)
length-raw_bytes (find_active_request r) h = omega (arith)
length-raw_bytes (find_active_reply r) h =
    omega (arith, length-le_bytes 1 r.is_active, length-append r.peer (le_bytes 1 r.is_active))
