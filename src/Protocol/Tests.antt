-- ===== src/Protocol/Tests.antt =====
-- Messages that are sent and read back, and one that is not for its reader.
use tcp_labs.Base.{ℕ, ◌≡◌, refl, ◌++◌, [], ◌∷◌, some, length, replicate, arith}
use tcp_labs.Protocol.Bytes.{Bytes, le_bytes}
use tcp_labs.Protocol.Structs.{
  type_login_in, raw_size, RawData, type_id, login_in, login_reply, p2p_login,
}
use tcp_labs.Protocol.Dispatch.{
  server, client, aborted, received, index, is_new_case, send_data, receive, receive_all,
}
use tcp_labs.Protocol.Cut.{zeros, receive-cut}
use tcp_labs.Protocol.Framing.{receive-refused, send_all, receive_all-send_all}

abbrev letters : ℕ → Bytes
letters n = replicate n 97

abbrev login : RawData
login = login_in (record { account = letters 32; pass_md5 = letters 32 })

abbrev reply : RawData
reply = login_reply (record { status = 300; message = letters 32; nickname = letters 32 })

abbrev peer : RawData
peer = p2p_login (record { peer = letters 32 })

receive-refused_example : receive server [] (send_data reply ++ []) ≡ aborted
unfolding is_new_case type_id length replicate
receive-refused_example = receive-refused server [] reply [] refl

receive_all-send_all_example :
    receive_all client [] 5 (send_all (reply ∷ peer ∷ [])) ≡ some (reply ∷ peer ∷ [])
unfolding is_new_case type_id length replicate
receive_all-send_all_example =
    receive_all-send_all client [] 5 (reply ∷ peer ∷ []) (omega arith)
      (((omega arith), refl, refl), refl, (refl, refl, tt))

-- The account and 8 bytes of the password of a login.
receive-cut_example :
    (m : RawData) × (receive server [] (le_bytes 4 (index type_login_in) ++ letters 40)
      ≡ received m [])
    × (receive server [] (le_bytes 4 (index type_login_in) ++ (letters 40 ++ zeros 24))
        ≡ received m [])
unfolding is_new_case raw_size length replicate
receive-cut_example = receive-cut server [] type_login_in (letters 40) refl (omega arith)
