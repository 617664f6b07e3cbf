-- ===== src/Protocol/Structs.antt =====
-- The structs `Raw` of protocol/dataflow.h, their bytes in memory on x86-64, and how a struct is
-- filled from bytes.
use tcp_labs.Base.{ℕ, ◌<◌, ◌≡◌, ◌++◌, length}
use tcp_labs.Protocol.Bytes.{Bytes, le_bytes, span, Reader, ◌>>=◌, give, text, number}

pub record Registion : Type 0 where
  pub account : Bytes
  pub pass_md5 : Bytes
  pub nickname : Bytes

pub record OpStatus : Type 0 where
  pub status : ℕ
  pub message : Bytes

pub record LoginIn : Type 0 where
  pub account : Bytes
  pub pass_md5 : Bytes

pub record LoginReply : Type 0 where
  pub status : ℕ
  pub message : Bytes
  pub nickname : Bytes

pub record SendMessage : Type 0 where
  pub sender : Bytes
  pub receiver : Bytes
  pub timestamp : ℕ
  pub message : Bytes

pub record P2pRequest : Type 0 where
  pub sender : Bytes
  pub receiver : Bytes
  pub listener_ip : ℕ
  pub listener_port : ℕ

pub record P2pLogin : Type 0 where
  pub peer : Bytes

pub record FileSendRequest : Type 0 where
  pub sender : Bytes
  pub receiver : Bytes
  pub file_path : Bytes
  pub file_length : ℕ

pub record FileSendAccept : Type 0 where
  pub sender : Bytes
  pub receiver : Bytes
  pub udp_port : ℕ
  pub file_path : Bytes
  pub padding : Bytes
  pub file_length : ℕ

pub record RecoverPassword : Type 0 where
  pub account : Bytes
  pub nickname : Bytes
  pub new_pass_md5 : Bytes

pub record FindActiveRequest : Type 0 where
  pub sender : Bytes

pub record FindActiveReply : Type 0 where
  pub peer : Bytes
  pub is_active : ℕ

-- enum class DataFlowType
pub data DataFlowType : Type 0 where
  type_registion : DataFlowType
  type_op_status : DataFlowType
  type_login_in : DataFlowType
  type_login_reply : DataFlowType
  type_send_message : DataFlowType
  type_p2p_request : DataFlowType
  type_p2p_login : DataFlowType
  type_file_send_request : DataFlowType
  type_file_send_accept : DataFlowType
  type_recover_password : DataFlowType
  type_find_active_request : DataFlowType
  type_find_active_reply : DataFlowType

-- A value of one of the subclasses of RawData.
pub data RawData : Type 0 where
  registion : Registion → RawData
  op_status : OpStatus → RawData
  login_in : LoginIn → RawData
  login_reply : LoginReply → RawData
  send_message : SendMessage → RawData
  p2p_request : P2pRequest → RawData
  p2p_login : P2pLogin → RawData
  file_send_request : FileSendRequest → RawData
  file_send_accept : FileSendAccept → RawData
  recover_password : RecoverPassword → RawData
  find_active_request : FindActiveRequest → RawData
  find_active_reply : FindActiveReply → RawData

-- TYPE_ID of a message.
unfoldable pub type_id : RawData → DataFlowType
type_id (registion r) = type_registion
type_id (op_status r) = type_op_status
type_id (login_in r) = type_login_in
type_id (login_reply r) = type_login_reply
type_id (send_message r) = type_send_message
type_id (p2p_request r) = type_p2p_request
type_id (p2p_login r) = type_p2p_login
type_id (file_send_request r) = type_file_send_request
type_id (file_send_accept r) = type_file_send_accept
type_id (recover_password r) = type_recover_password
type_id (find_active_request r) = type_find_active_request
type_id (find_active_reply r) = type_find_active_reply

-- The bytes of `raw`. Padding is a field: it holds whatever is in memory.
unfoldable pub raw_bytes : RawData → Bytes
raw_bytes (registion r) = r.account ++ (r.pass_md5 ++ r.nickname)
raw_bytes (op_status r) = le_bytes 4 r.status ++ r.message
raw_bytes (login_in r) = r.account ++ r.pass_md5
raw_bytes (login_reply r) = le_bytes 4 r.status ++ (r.message ++ r.nickname)
raw_bytes (send_message r) = r.sender ++ (r.receiver ++ (le_bytes 8 r.timestamp ++ r.message))
raw_bytes (p2p_request r) =
    r.sender ++ (r.receiver ++ (le_bytes 4 r.listener_ip ++ le_bytes 4 r.listener_port))
raw_bytes (p2p_login r) = r.peer
raw_bytes (file_send_request r) =
    r.sender ++ (r.receiver ++ (r.file_path ++ le_bytes 8 r.file_length))
raw_bytes (file_send_accept r) =
    r.sender
    ++ (r.receiver
        ++ (le_bytes 2 r.udp_port ++ (r.file_path ++ (r.padding ++ le_bytes 8 r.file_length))))
raw_bytes (recover_password r) = r.account ++ (r.nickname ++ r.new_pass_md5)
raw_bytes (find_active_request r) = r.sender
raw_bytes (find_active_reply r) = r.peer ++ le_bytes 1 r.is_active

-- The arrays have their declared sizes and the numbers fit.
abbrev pub IsSized : RawData → Type 0
IsSized (registion r) =
    (length r.account ≡ 32) × (length r.pass_md5 ≡ 32) × (length r.nickname ≡ 32)
IsSized (op_status r) = (r.status < span 4) × (length r.message ≡ 32)
IsSized (login_in r) = (length r.account ≡ 32) × (length r.pass_md5 ≡ 32)
IsSized (login_reply r) = (r.status < span 4) × (length r.message ≡ 32) × (length r.nickname ≡ 32)
IsSized (send_message r) =
    (length r.sender ≡ 32)
    × (length r.receiver ≡ 32)
    × (r.timestamp < span 8)
    × (length r.message ≡ 512)
IsSized (p2p_request r) =
    (length r.sender ≡ 32)
    × (length r.receiver ≡ 32)
    × (r.listener_ip < span 4)
    × (r.listener_port < span 4)
IsSized (p2p_login r) = (length r.peer ≡ 32)
IsSized (file_send_request r) =
    (length r.sender ≡ 32)
    × (length r.receiver ≡ 32)
    × (length r.file_path ≡ 256)
    × (r.file_length < span 8)
IsSized (file_send_accept r) =
    (length r.sender ≡ 32)
    × (length r.receiver ≡ 32)
    × (r.udp_port < span 2)
    × (length r.file_path ≡ 256)
    × (length r.padding ≡ 6)
    × (r.file_length < span 8)
IsSized (recover_password r) =
    (length r.account ≡ 32) × (length r.nickname ≡ 32) × (length r.new_pass_md5 ≡ 32)
IsSized (find_active_request r) = (length r.sender ≡ 32)
IsSized (find_active_reply r) = (length r.peer ≡ 32) × (r.is_active < span 1)

-- read_data() of each class into its struct, which std::make_unique has made of zeros.
unfoldable pub read_raw : DataFlowType → Reader RawData
read_raw type_registion = do
  account ← text 32
  pass_md5 ← text 32
  nickname ← text 32
  give (registion (record { account = account; pass_md5 = pass_md5; nickname = nickname }))
read_raw type_op_status = do
  status ← number 4
  message ← text 32
  give (op_status (record { status = status; message = message }))
read_raw type_login_in = do
  account ← text 32
  pass_md5 ← text 32
  give (login_in (record { account = account; pass_md5 = pass_md5 }))
read_raw type_login_reply = do
  status ← number 4
  message ← text 32
  nickname ← text 32
  give (login_reply (record { status = status; message = message; nickname = nickname }))
read_raw type_send_message = do
  sender ← text 32
  receiver ← text 32
  timestamp ← number 8
  message ← text 512
  give (
      send_message
        (record { sender = sender; receiver = receiver; timestamp = timestamp; message = message }))
read_raw type_p2p_request = do
  sender ← text 32
  receiver ← text 32
  listener_ip ← number 4
  listener_port ← number 4
  give (
      p2p_request (record {
        sender = sender;
        receiver = receiver;
        listener_ip = listener_ip;
        listener_port = listener_port;
      }))
read_raw type_p2p_login = do peer ← text 32; give (p2p_login (record { peer = peer }))
read_raw type_file_send_request = do
  sender ← text 32
  receiver ← text 32
  file_path ← text 256
  file_length ← number 8
  give (
      file_send_request (record {
        sender = sender;
        receiver = receiver;
        file_path = file_path;
        file_length = file_length;
      }))
read_raw type_file_send_accept = do
  sender ← text 32
  receiver ← text 32
  udp_port ← number 2
  file_path ← text 256
  padding ← text 6
  file_length ← number 8
  give (
      file_send_accept (record {
        sender = sender;
        receiver = receiver;
        udp_port = udp_port;
        file_path = file_path;
        padding = padding;
        file_length = file_length;
      }))
read_raw type_recover_password = do
  account ← text 32
  nickname ← text 32
  new_pass_md5 ← text 32
  give (
      recover_password
        (record { account = account; nickname = nickname; new_pass_md5 = new_pass_md5 }))
read_raw type_find_active_request = do
  sender ← text 32
  give (find_active_request (record { sender = sender }))
read_raw type_find_active_reply = do
  peer ← text 32
  is_active ← number 1
  give (find_active_reply (record { peer = peer; is_active = is_active }))

-- sizeof(raw)
unfoldable pub raw_size : DataFlowType → ℕ
raw_size type_registion = 96
raw_size type_op_status = 36
raw_size type_login_in = 64
raw_size type_login_reply = 68
raw_size type_send_message = 584
raw_size type_p2p_request = 72
raw_size type_p2p_login = 32
raw_size type_file_send_request = 328
raw_size type_file_send_accept = 336
raw_size type_recover_password = 96
raw_size type_find_active_request = 32
raw_size type_find_active_reply = 33
