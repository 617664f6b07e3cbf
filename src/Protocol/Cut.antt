-- ===== src/Protocol/Cut.antt =====
-- A message whose stream ends within it: it is the message of the bytes that came with zeros behind.
use tcp_labs.Base.{
  ℕ, zero, suc, ◌+◌, ◌-◌, ◌≤◌, ◌≡◌, refl, ap, ◌∙◌, true, [], ◌∷◌, ◌++◌, length, length-append, take,
  drop, length-drop, replicate, length-replicate, arith,
}
use tcp_labs.Protocol.Dispatch.{Role, received, index, is_new_case, read_data, dispatch, receive}
use tcp_labs.Protocol.Framing.{receive-header}
use tcp_labs.Protocol.Bytes.{le_bytes, Bytes, Reader, ◌>>=◌, give, text, number, of_le}
use tcp_labs.Protocol.Structs.{
  DataFlowType, type_registion, type_op_status, type_login_in, type_login_reply, type_send_message,
  type_p2p_request, type_p2p_login, type_file_send_request, type_file_send_accept,
  type_recover_password, type_find_active_request, type_find_active_reply, RawData, registion,
  op_status, login_in, login_reply, send_message, p2p_request, p2p_login, file_send_request,
  file_send_accept, recover_password, find_active_request, find_active_reply, read_raw, raw_size,
}

abbrev pub zeros : ℕ → Bytes
zeros k = replicate k 0

take-zeros : (n k : ℕ) → take n (zeros k) ++ zeros (n - length (zeros k)) ≡ zeros n
unfolding take replicate
take-zeros zero k = ap zeros {y = 0} (omega arith)
take-zeros (suc n) zero = ap zeros {y = suc n} (omega arith)
take-zeros (suc n) (suc k) =
    ap (λ m. 0 ∷ (take n (zeros k) ++ zeros m)) (omega arith) ∙ ap (◌∷◌ 0) (take-zeros n k)

take-fill :
    (n : ℕ) (bytes : Bytes) (k : ℕ)
    → take n (bytes ++ zeros k) ++ zeros (n - length (bytes ++ zeros k))
      ≡ take n bytes ++ zeros (n - length bytes)
unfolding take
take-fill zero [] k = take-zeros zero k
take-fill (suc n) [] k = take-zeros (suc n) k ∙ ap zeros (omega arith)
take-fill zero (b ∷ bytes) k = ap zeros (omega arith)
take-fill (suc n) (b ∷ bytes) k =
    ap (λ m. b ∷ (take n (bytes ++ zeros k) ++ zeros m)) (omega arith)
    ∙ ap (◌∷◌ b) (take-fill n bytes k)
    ∙ ap (λ m. b ∷ (take n bytes ++ zeros m)) (omega arith)

-- What is left has zeros behind too.
abbrev IsLonger : Bytes → Bytes → Type 0
IsLonger xs ys = (k : ℕ) × (ys ≡ xs ++ zeros k)

drop-zeros : (n k : ℕ) → IsLonger [] (drop n (zeros k))
unfolding drop replicate
drop-zeros zero k = (k, refl)
drop-zeros (suc n) zero = (0, refl)
drop-zeros (suc n) (suc k) = drop-zeros n k

drop-fill : (n : ℕ) (bytes : Bytes) (k : ℕ) → IsLonger (drop n bytes) (drop n (bytes ++ zeros k))
unfolding drop
drop-fill zero bytes k = (k, refl)
drop-fill (suc n) [] k = drop-zeros (suc n) k
drop-fill (suc n) (b ∷ bytes) k = drop-fill n bytes k

-- A reader of `n` bytes that takes bytes with zeros behind as it takes the bytes.
record Fills {A : Type 0} (m : Reader A) (n : ℕ) (bytes : Bytes) (k : ℕ) : Type 0 where
  same : (m (bytes ++ zeros k)).0 ≡ (m bytes).0
  left : IsLonger (m bytes).1 (m (bytes ++ zeros k)).1
  size : length (m bytes).1 ≡ length bytes - n

abbrev AllFills : {A : Type 0} → Reader A → ℕ → Type 0
AllFills m n = (bytes : Bytes) (k : ℕ) → Fills m n bytes k

give-AllFills : {A : Type 0} (a : A) → AllFills (give a) 0
give-AllFills a bytes k = record { same = refl; left = (k, refl); size = omega arith }

text-AllFills : (n : ℕ) → AllFills (text n) n
unfolding text
text-AllFills n bytes k = record {
  same = take-fill n bytes k;
  left = drop-fill n bytes k;
  size = length-drop n bytes;
}

bind-AllFills :
    {A B : Type 0} (m : Reader A) (n r : ℕ) (f : A → Reader B)
    → AllFills m n
    → ((a : A) → AllFills (f a) r)
    → AllFills (m >>= f) (n + r)
bind-AllFills m n r f fm ff bytes k =
    let one = fm bytes k in
    let (k', longer) = one.left in
    let next = ff (m bytes).0 (m bytes).1 k' in
    let moved : (m >>= f) (bytes ++ zeros k) ≡ f (m bytes).0 ((m bytes).1 ++ zeros k') =
      ap (λ a. f a (m (bytes ++ zeros k)).1) one.same ∙ ap (f (m bytes).0) longer in
    record {
      same = ap (λ r. r.0) moved ∙ next.same;
      left = (next.left.0, ap (λ r. r.1) moved ∙ next.left.1);
      size = omega (arith, next.size, one.size);
    }

number-AllFills : (w : ℕ) → AllFills (number w) w
unfolding number
number-AllFills w bytes k =
    let whole =
      bind-AllFills (text w) w 0 (λ b. give (of_le b)) (text-AllFills w)
        (λ b. give-AllFills (of_le b)) bytes k in
    record { same = whole.same; left = whole.left; size = omega (arith, whole.size) }

-- Readers one behind the other.
then_text :
    {B : Type 0} (n r : ℕ) (f : Bytes → Reader B)
    → ((a : Bytes) → AllFills (f a) r)
    → AllFills (text n >>= f) (n + r)
then_text n r f h = bind-AllFills (text n) n r f (text-AllFills n) h

then_number :
    {B : Type 0} (w r : ℕ) (f : ℕ → Reader B)
    → ((a : ℕ) → AllFills (f a) r)
    → AllFills (number w >>= f) (w + r)
then_number w r f h = bind-AllFills (number w) w r f (number-AllFills w) h

read_raw-AllFills : (t : DataFlowType) → AllFills (read_raw t) (raw_size t)
unfolding read_raw raw_size
read_raw-AllFills type_registion = then_text 32 64 _ (λ account. then_text 32 32 _ (λ pass_md5.
    then_text 32 0 _ (λ nickname.
      give-AllFills
        (registion (record { account = account; pass_md5 = pass_md5; nickname = nickname })))))
read_raw-AllFills type_op_status = then_number 4 32 _ (λ status.
    then_text 32 0 _
      (λ message. give-AllFills (op_status (record { status = status; message = message }))))
read_raw-AllFills type_login_in = then_text 32 32 _ (λ account.
    then_text 32 0 _
      (λ pass_md5. give-AllFills (login_in (record { account = account; pass_md5 = pass_md5 }))))
read_raw-AllFills type_login_reply = then_number 4 64 _ (λ status. then_text 32 32 _ (λ message.
    then_text 32 0 _ (λ nickname.
      give-AllFills
        (login_reply (record { status = status; message = message; nickname = nickname })))))
read_raw-AllFills type_send_message = then_text 32 552 _ (λ sender. then_text 32 520 _ (λ receiver.
    then_number 8 512 _ (λ timestamp. then_text 512 0 _ (λ message. give-AllFills (
      send_message (record {
        sender = sender;
        receiver = receiver;
        timestamp = timestamp;
        message = message;
      }))))))
read_raw-AllFills type_p2p_request = then_text 32 40 _ (λ sender. then_text 32 8 _ (λ receiver.
    then_number 4 4 _ (λ listener_ip. then_number 4 0 _ (λ listener_port. give-AllFills (
      p2p_request (record {
        sender = sender;
        receiver = receiver;
        listener_ip = listener_ip;
        listener_port = listener_port;
      }))))))
read_raw-AllFills type_p2p_login =
    then_text 32 0 _ (λ peer. give-AllFills (p2p_login (record { peer = peer })))
read_raw-AllFills type_file_send_request = then_text 32 296 _ (λ sender.
    then_text 32 264 _ (λ receiver. then_text 256 8 _ (λ file_path.
      then_number 8 0 _ (λ file_length. give-AllFills (
        file_send_request (record {
          sender = sender;
          receiver = receiver;
          file_path = file_path;
          file_length = file_length;
        }))))))
read_raw-AllFills type_file_send_accept = then_text 32 304 _ (λ sender.
    then_text 32 272 _ (λ receiver. then_number 2 270 _ (λ udp_port.
      then_text 256 14 _ (λ file_path. then_text 6 8 _ (λ padding. then_number 8 0 _ (λ file_length.
        give-AllFills (
          file_send_accept (record {
            sender = sender;
            receiver = receiver;
            udp_port = udp_port;
            file_path = file_path;
            padding = padding;
            file_length = file_length;
          }))))))))
read_raw-AllFills type_recover_password = then_text 32 64 _ (λ account.
    then_text 32 32 _ (λ nickname. then_text 32 0 _ (λ new_pass_md5. give-AllFills (
      recover_password
        (record { account = account; nickname = nickname; new_pass_md5 = new_pass_md5 })))))
read_raw-AllFills type_find_active_request =
    then_text 32 0 _ (λ sender. give-AllFills (find_active_request (record { sender = sender })))
read_raw-AllFills type_find_active_reply = then_text 32 1 _ (λ peer. then_number 1 0 _ (λ is_active.
    give-AllFills (find_active_reply (record { peer = peer; is_active = is_active }))))

-- The struct is all that the stream has.
nothing : (bytes : Bytes) → length bytes ≡ 0 → bytes ≡ []
nothing [] h = refl
nothing (b ∷ bytes) h = absurd (omega (arith, h))

all_read :
    (t : DataFlowType) (bytes : Bytes) → length bytes ≤ raw_size t → (read_raw t bytes).1 ≡ []
all_read t bytes short = nothing _ (omega (arith, (read_raw-AllFills t bytes 0).size))

-- A message of a type that a program takes, cut off behind its type number, within its struct or at its
-- end, is taken as the message of that type that the bytes which came make with zeros behind them, up
-- to the size of the struct, and nothing is left.
pub receive-cut :
    (role : Role) (memory : Bytes) (t : DataFlowType) (bytes : Bytes)
    → is_new_case role t ≡ true
    → length bytes ≤ raw_size t
    → (m : RawData) × (receive role memory (le_bytes 4 (index t) ++ bytes) ≡ received m [])
      × (receive role memory (le_bytes 4 (index t) ++ (bytes ++ zeros (raw_size t - length bytes)))
          ≡ received m [])
unfolding dispatch read_data
receive-cut role memory t bytes takes short =
    let k = raw_size t - length bytes in
    let filled = read_raw-AllFills t bytes k in
    let size : length (bytes ++ zeros k) ≤ raw_size t =
      omega (arith, length-append bytes (zeros k), length-replicate {A = ℕ} k 0) in
    (
      (read_raw t bytes).0,
      receive-header role memory t bytes
          ∙ rw takes (ap (received (read_raw t bytes).0) (all_read t bytes short)),
      receive-header role memory t (bytes ++ zeros k)
          ∙ rw takes (
              ap (λ m. received m (read_raw t (bytes ++ zeros k)).1) filled.same
              ∙ ap (received (read_raw t bytes).0) (all_read t (bytes ++ zeros k) size)),
    )
