-- ===== src/Server/Mail.antt =====
-- A message to an account that is not logged in: SendMessage::action() and send_offline_message() of
-- server/server_dataflow.cpp, with the login between them.
use tcp_labs.Base.{
  ℕ, zero, suc, ◌≡◌, refl, ap, ◌∙◌, true, [], ◌∷◌, ◌++◌, Option, none, some, length, take, arith,
}
use tcp_labs.Base.Maps.{codes, assign}
use tcp_labs.Protocol.Bytes.{Bytes}
use tcp_labs.Protocol.Structs.{LoginIn, SendMessage, login_reply}
use tcp_labs.Server.Environment.{Environment, Account, Mail, c_str, literal, copy}
use tcp_labs.Server.Actions.{
  Server, send, send_offline_message, check_password, login_in_action, stored_text,
}
use tcp_labs.Server.Sessions.{may_enter, has_password}

-- A string keeps what stands before its first zero.
pub c_str-append : (s z : Bytes) → c_str (s ++ 0 ∷ z) ≡ c_str s
unfolding c_str
c_str-append [] z = refl
c_str-append (b ∷ s) z = ground (arith, c_str-append s z)

pub c_str-take : (n : ℕ) (s : Bytes) → c_str (take n s) ≡ take n (c_str s)
unfolding c_str take
c_str-take zero s = refl
c_str-take (suc n) [] = refl
c_str-take (suc n) (b ∷ s) = ground (arith, c_str-take n s)

-- COPY() of a string is that string again, cut to the size of the array.
pub c_str-copy : (env : Environment) (n : ℕ) (s : Bytes) → c_str (copy env n s) ≡ take n (c_str s)
unfolding copy
c_str-copy env n s =
    c_str-take n (s ++ 0 ∷ env.behind n s) ∙ ap (take n) (c_str-append s (env.behind n s))

module _ (env : Environment) where
  -- The state in which the offline messages of an account that enters are sent.
  abbrev pub entered : Server env → ℕ → LoginIn → Account → Server env
  entered s conn l row =
      send env (record s { lookup = assign (c_str l.account) conn s.lookup }) conn
        (login_reply (record {
          status = 0;
          message = literal 32 (codes "login succeed");
          nickname = copy env 32 row.nickname;
        }))

  check_password-entered :
      (s : Server env) (conn : ℕ) (l : LoginIn) (row : Option Account)
      → has_password env l row ≡ true
      → (r : Account) × (check_password env s conn l row
          ≡ send_offline_message env (entered s conn l r) conn (c_str l.account))
  unfolding check_password
  check_password-entered s conn l none h = absurd (ground arith)
  check_password-entered s conn l (some row) h = (row, ground arith)

  pub login-entered :
      (s : Server env) (conn : ℕ) (l : LoginIn)
      → may_enter env s l ≡ true
      → (row : Account) × (login_in_action env s conn l
          ≡ send_offline_message env (entered s conn l row) conn (c_str l.account))
  unfolding login_in_action
  login-entered s conn l may =
      let found = env.find_account s.db (c_str l.account) in
      let right : has_password env l found ≡ true = ground arith in
      let way : login_in_action env s conn l ≡ check_password env s conn l found = ground arith in
      let (row, e) = check_password-entered s conn l found right in (row, way ∙ e)

  -- The row of a message, and the state behind it.
  abbrev pub new_mail : SendMessage → Mail
  new_mail r = record {
    sender = c_str r.sender;
    receiver = c_str r.receiver;
    timestamp = r.timestamp;
    messagesize = length (stored_text env (c_str r.message));
    message = stored_text env (c_str r.message);
  }

  abbrev pub stored : Server env → SendMessage → Server env
  stored s r = record s {
    db =
        env.insert_mail s.db (c_str r.sender) (c_str r.receiver) r.timestamp
          (length (stored_text env (c_str r.message))) (stored_text env (c_str r.message));
  }
