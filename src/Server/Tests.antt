-- ===== src/Server/Tests.antt =====
-- The actions of the server over a small database, with an account that is entered, a message that
-- waits and a password that is recovered.
use tcp_labs.Base.{
  ◌≡◌, refl, inl, inr, List, [], ◌∷◌, ◌++◌, Option, none, some, if◌then◌else◌, replicate, take,
  arith,
}
use tcp_labs.Base.Maps.{codes, str_eq, str_eq_refl, find, assign, count_value}
use tcp_labs.Protocol.Bytes.{Bytes}
use tcp_labs.Protocol.Structs.{
  FindActiveRequest, LoginIn, Registion, RecoverPassword, SendMessage, login_in,
}
use tcp_labs.Protocol.Dispatch.{received}
use tcp_labs.Server.Environment.{Environment, Account, Mail, c_str, literal}
use tcp_labs.Server.Actions.{
  find_active_action, Server, registion_action, recover_password_action, login_in_action,
  send_message_action, action, close_conn, visitor,
}
use tcp_labs.Server.Sessions.{may_enter, login-lookup}
use tcp_labs.Server.Closing.{close_conn-without, without, close_conn-login_in_action}
use tcp_labs.Server.Conformance.{AllForClient, visitor-AllForClient}
use tcp_labs.Server.Active.{others, replies_before, find_active_action_lem}
use tcp_labs.Server.Accounts.{recovered_password_enters, registered_account_enters}

pub record TestDb : Type 0 where
  pub accounts : List (Bytes × Account)
  pub mails : List Mail

unfoldable pub row_of : Bytes → List (Bytes × Account) → Option Account
row_of a [] = none
row_of a ((b, row) ∷ rows) = if str_eq b a then some row else row_of a rows

unfoldable pub mails_of : Bytes → List Mail → List Mail
mails_of a [] = []
mails_of a (m ∷ ms) = let rest = mails_of a ms in if str_eq m.receiver a then m ∷ rest else rest

abbrev pub test_env : Environment
test_env = record {
  Db = TestDb;
  insert_account = λ db a p n. elim (row_of a db.accounts) [
    | some row ↦ inl (codes "UNIQUE constraint failed: accounts.account")
    | none ↦ inr (record db {
      accounts = (a, record { password = p; salt = []; nickname = n }) ∷ db.accounts;
    })
  ];
  find_account = λ db a. row_of a db.accounts;
  set_password = λ db a p salt. elim (row_of a db.accounts) [
    | none ↦ db
    | some row ↦ record db {
      accounts = (a, record { password = p; salt = salt; nickname = row.nickname }) ∷ db.accounts;
    }
  ];
  insert_mail = λ db sender receiver t n m. record db {
    mails =
        db.mails
        ++ record {
          sender = sender;
          receiver = receiver;
          timestamp = t;
          messagesize = n;
          message = m;
        }
          ∷ [];
  };
  select_mail = λ db a. mails_of a db.mails;
  delete_mail = λ db a. record db { mails = [] };
  encrypt = λ s. 7 ∷ s;
  decrypt = λ s. elim s [ [] ↦ [] | b ∷ rest ↦ rest ];
  peer_ip = λ conn. 2130706433;
  behind = λ n s. 1 ∷ [];
}

abbrev pub ann : Bytes
ann = codes "ann"

abbrev pub bob : Bytes
bob = codes "bob"

abbrev pub two_accounts : TestDb
two_accounts = record {
  accounts =
      (ann, record { password = codes "pa"; salt = []; nickname = codes "Ann" })
      ∷ (bob, record { password = codes "pb"; salt = []; nickname = codes "Bob" })
      ∷ [];
  mails = [];
}

-- ann is entered on connection 5.
abbrev pub ann_in : Server test_env
ann_in = record { lookup = (ann, 5) ∷ []; db = two_accounts; sent = []; closed_conns = [] }

abbrev bob_login : LoginIn
bob_login = record { account = literal 32 bob; pass_md5 = literal 32 (codes "pb") }

abbrev pub hello : SendMessage
hello = record {
  sender = literal 32 ann;
  receiver = literal 32 bob;
  timestamp = 99;
  message = literal 512 (codes "hello, bob");
}

-- The text that waits for bob is cut.
hello_cut : take 8 (c_str hello.message) ≡ codes "hello, b"
unfolding c_str literal take
hello_cut = refl

set_password_reads :
    (db : TestDb) (account password salt : Bytes) (row : Account)
    → test_env.find_account db account ≡ some row
    → test_env.find_account (test_env.set_password db account password salt) account
      ≡ some (record { password = password; salt = salt; nickname = row.nickname })
unfolding row_of
set_password_reads db account password salt row e = ground (arith, str_eq_refl account)

abbrev bob_recovers : RecoverPassword
bob_recovers = record {
  account = literal 32 bob;
  nickname = literal 32 (codes "Bob");
  new_pass_md5 = literal 32 (codes "pc");
}

recovered_password_enters_example :
    may_enter test_env (recover_password_action test_env ann_in 6 bob_recovers) bob_login
    ≡ str_eq (codes "pc") (codes "pb")
unfolding c_str literal take replicate str_eq find row_of
recovered_password_enters_example =
    recovered_password_enters test_env set_password_reads ann_in 6 bob_recovers
      (record { password = codes "pb"; salt = []; nickname = codes "Bob" }) bob_login refl refl refl
      refl

abbrev ann_recovers : RecoverPassword
ann_recovers = record {
  account = literal 32 ann;
  nickname = literal 32 (codes "Ann");
  new_pass_md5 = literal 32 (codes "pc");
}

insert_account_reads :
    (db db' : TestDb) (account password nickname : Bytes)
    → test_env.insert_account db account password nickname ≡ inr db'
    → (salt : Bytes) × (test_env.find_account db' account
        ≡ some (record { password = password; salt = salt; nickname = nickname }))
unfolding row_of
insert_account_reads db db' account password nickname e = ([], ground (arith, str_eq_refl account))

abbrev cat_registers : Registion
cat_registers = record {
  account = literal 32 (codes "cat");
  pass_md5 = literal 32 (codes "pc");
  nickname = literal 32 (codes "Cat");
}

abbrev cat_login : LoginIn
cat_login = record { account = literal 32 (codes "cat"); pass_md5 = literal 32 (codes "pc") }

abbrev three_accounts : TestDb
three_accounts = record two_accounts {
  accounts =
      (codes "cat", record { password = codes "pc"; salt = []; nickname = codes "Cat" })
      ∷ two_accounts.accounts;
}

registered_account_enters_example :
    may_enter test_env (registion_action test_env ann_in 6 cat_registers) cat_login
    ≡ str_eq (codes "pc") (codes "pc")
unfolding c_str literal take replicate str_eq find row_of
registered_account_enters_example =
    registered_account_enters test_env insert_account_reads ann_in 6 cat_registers three_accounts
      cat_login refl refl refl

abbrev wrong_login : LoginIn
wrong_login = record { account = literal 32 bob; pass_md5 = literal 32 (codes "pa") }

login-lookup_example :
    (login_in_action test_env ann_in 6 bob_login).lookup ≡ assign bob 6 ((ann, 5) ∷ [])
unfolding c_str literal take replicate str_eq find row_of
login-lookup_example = login-lookup test_env ann_in 6 bob_login

abbrev mailed : Server test_env
mailed = send_message_action test_env ann_in 5 hello

abbrev both_in : Server test_env
both_in = record ann_in { lookup = (ann, 5) ∷ (bob, 6) ∷ [] }

close_conn-without_example : (close_conn test_env both_in 5).lookup ≡ without 5 both_in.lookup
unfolding count_value
close_conn-without_example = close_conn-without test_env both_in 5 (omega arith)

-- bob enters on the connection of ann, which is then closed: one of the two accounts stays.
close_conn-login_in_action_example :
    count_value 5 (close_conn test_env (login_in_action test_env ann_in 5 bob_login) 5).lookup ≡ 1
unfolding c_str literal take replicate str_eq find row_of count_value
close_conn-login_in_action_example = close_conn-login_in_action test_env ann_in 5 bob_login refl

visitor-AllForClient_example : AllForClient (login_in_action test_env ann_in 6 bob_login).sent
unfolding action visitor
visitor-AllForClient_example =
    visitor-AllForClient test_env ann_in (login_in_action test_env ann_in 6 bob_login) 6
      (received (login_in bob_login) []) tt refl

abbrev who_is_in : FindActiveRequest
who_is_in = record { sender = literal 32 ann }

find_active_action_lem_example :
    find_active_action test_env both_in 5 who_is_in
    ≡ record both_in { sent = replies_before test_env 5 (bob ∷ []) [] }
unfolding c_str literal take replicate str_eq others
find_active_action_lem_example = find_active_action_lem test_env both_in 5 who_is_in
