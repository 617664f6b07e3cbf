-- ===== src/Protocol/Dispatch.antt =====
-- RawData::send_data() of each struct, and RawData::get_type() with read_data() on the bytes that the
-- other end has sent.
use tcp_labs.Base.{
  ℕ, zero, suc, Bool, true, false, List, [], ◌∷◌, ◌++◌, Option, none, some, ◌==◌, if◌then◌else◌,
  length, take, drop,
}
use tcp_labs.Protocol.Bytes.{Bytes, le_bytes, of_le}
use tcp_labs.Protocol.Structs.{
  DataFlowType, type_registion, type_op_status, type_login_in, type_login_reply, type_send_message,
  type_p2p_request, type_p2p_login, type_file_send_request, type_file_send_accept,
  type_recover_password, type_find_active_request, type_find_active_reply, RawData, type_id,
  raw_bytes, read_raw,
}

-- The numbers of the enumeration, in the order of its declaration.
unfoldable pub index : DataFlowType → ℕ
index type_registion = 0
index type_op_status = 1
index type_login_in = 2
index type_login_reply = 3
index type_send_message = 4
index type_p2p_request = 5
index type_p2p_login = 6
index type_file_send_request = 7
index type_file_send_accept = 8
index type_recover_password = 9
index type_find_active_request = 10
index type_find_active_reply = 11

abbrev pub all_types : List DataFlowType
all_types =
    type_registion ∷ type_op_status ∷ type_login_in ∷ type_login_reply ∷ type_send_message
    ∷ type_p2p_request ∷ type_p2p_login ∷ type_file_send_request ∷ type_file_send_accept
    ∷ type_recover_password ∷ type_find_active_request ∷ type_find_active_reply ∷ []

-- The case of the switch that a number selects; `none` is the default.
abbrev pub find_type : ℕ → List DataFlowType → Option DataFlowType
find_type s [] = none
find_type s (t ∷ ts) = if index t == s then some t else find_type s ts

-- send_data(): the number of the type in four bytes, then the struct.
unfoldable pub send_data : RawData → Bytes
send_data m = le_bytes 4 (index (type_id m)) ++ raw_bytes m

-- The two programs that include gen_dataflow.h.
pub data Role : Type 0 where
  server client : Role

-- NEWCASE (`true`) and FAKECASE (`false`) of each type.
unfoldable pub is_new_case : Role → DataFlowType → Bool
is_new_case server type_registion = true
is_new_case server type_login_in = true
is_new_case server type_send_message = true
is_new_case server type_p2p_request = true
is_new_case server type_recover_password = true
is_new_case server type_find_active_request = true
is_new_case server t = false
is_new_case client type_registion = false
is_new_case client type_login_in = false
is_new_case client type_recover_password = false
is_new_case client type_find_active_request = false
is_new_case client t = true

-- `closed` is the null pointer, `unknown` is exit(-1) at the default case, and `aborted` the assertion
-- of a FAKECASE.
pub data Received : Type 0 where
  received : RawData → Bytes → Received
  closed : Received
  unknown : Received
  aborted : Received

-- What read_data() returns, the number of bytes, is not used.
unfoldable pub read_data : DataFlowType → Bytes → Received
read_data t bytes = let (m, rest) = read_raw t bytes in received m rest

unfoldable pub dispatch : Role → Option DataFlowType → Bytes → Received
unfolding read_data is_new_case
dispatch role none bytes = unknown
dispatch role (some t) bytes = if is_new_case role t then read_data t bytes else aborted

-- The variable of the type, of whose four bytes those that do not come keep what is in `memory`.
abbrev pub type_bytes : Bytes → Bytes → Bytes
type_bytes memory bytes = take 4 (bytes ++ drop (length bytes) memory)

-- get_type() and read_data() on a stream that ends behind `bytes`.
unfoldable pub receive : Role → Bytes → Bytes → Received
unfolding dispatch
receive role memory bytes =
    if length bytes == 0
    then closed
    else dispatch role (find_type (of_le (type_bytes memory bytes)) all_types) (drop 4 bytes)

-- Messages read one after the other, until the stream ends: `none` if one of them is refused.
unfoldable pub receive_all : Role → Bytes → ℕ → Bytes → Option (List RawData)
receive_all role memory zero bytes = none
receive_all role memory (suc fuel) bytes = elim (receive role memory bytes) [
  | closed ↦ some []
  | received m rest ↦ elim (receive_all role memory fuel rest) [
    | none ↦ none
    | some ms ↦ some (m ∷ ms)
  ]
  | _ ↦ none
]
