-- ===== src/Server/Accounts.antt =====
-- Registion::action() and RecoverPassword::action() of server/server_dataflow.cpp with the logins that
-- follow them.
use tcp_labs.Base.{ℕ, ◌≡◌, ap, ◌∙◌, inr, true, none, some, arith}
use tcp_labs.Base.Maps.{str_eq, str_eq_refl, find}
use tcp_labs.Protocol.Bytes.{Bytes}
use tcp_labs.Protocol.Structs.{LoginIn, Registion, RecoverPassword}
use tcp_labs.Server.Environment.{Environment, Account, c_str}
use tcp_labs.Server.Actions.{Server, registion_action, check_nickname, recover_password_action}
use tcp_labs.Server.Sessions.{may_enter, registion-lookup, recover_password-lookup}

module _ (env : Environment) where
  -- What a login may do depends on the table and the row of its account.
  may_enter-row :
      (s : Server env) (l : LoginIn) (row : Account)
      → find (c_str l.account) s.lookup ≡ none
      → env.find_account s.db (c_str l.account) ≡ some row
      → may_enter env s l ≡ str_eq row.password (c_str l.pass_md5)
  may_enter-row s l row h e = ground arith

  recover-db :
      (s : Server env) (conn : ℕ) (r : RecoverPassword) (row : Account)
      → find (c_str r.account) s.lookup ≡ none
      → env.find_account s.db (c_str r.account) ≡ some row
      → str_eq row.nickname (c_str r.nickname) ≡ true
      → (recover_password_action env s conn r).db
        ≡ env.set_password s.db (c_str r.account) (c_str r.new_pass_md5) row.salt
  unfolding recover_password_action check_nickname
  recover-db s conn r row h e n = ground arith

  -- Once the password of an account that is logged in nowhere has been recovered with its nickname,
  -- a login to the account is taken just when it gives the new password. The database reads back the
  -- password that was set.
  pub recovered_password_enters :
      ((db : env.Db) (account password salt : Bytes) (row : Account)
        → env.find_account db account ≡ some row
        → env.find_account (env.set_password db account password salt) account
          ≡ some (record { password = password; salt = salt; nickname = row.nickname }))
      → (s : Server env) (conn : ℕ) (r : RecoverPassword) (row : Account) (l : LoginIn)
      → find (c_str r.account) s.lookup ≡ none
      → env.find_account s.db (c_str r.account) ≡ some row
      → row.nickname ≡ c_str r.nickname
      → c_str l.account ≡ c_str r.account
      → may_enter env (recover_password_action env s conn r) l
        ≡ str_eq (c_str r.new_pass_md5) (c_str l.pass_md5)
  recovered_password_enters reads s conn r row l h e n same =
      let right : str_eq row.nickname (c_str r.nickname) ≡ true =
        ap (λ x. str_eq x (c_str r.nickname)) n ∙ str_eq_refl (c_str r.nickname) in
      may_enter-row (recover_password_action env s conn r) l
        (record { password = c_str r.new_pass_md5; salt = row.salt; nickname = row.nickname })
        (ap (λ a. find a (recover_password_action env s conn r).lookup) same
          ∙ ap (find (c_str r.account)) (recover_password-lookup env s conn r)
          ∙ h)
        (ap (env.find_account (recover_password_action env s conn r).db) same
          ∙ ap (λ db. env.find_account db (c_str r.account)) (recover-db s conn r row h e right)
          ∙ reads s.db (c_str r.account) (c_str r.new_pass_md5) row.salt row e)

  registion-db :
      (s : Server env) (conn : ℕ) (r : Registion) (db' : env.Db)
      → env.insert_account s.db (c_str r.account) (c_str r.pass_md5) (c_str r.nickname) ≡ inr db'
      → (registion_action env s conn r).db ≡ db'
  unfolding registion_action
  registion-db s conn r db' e = ground arith

  -- An account that has been registered is entered just with the password it was registered with.
  -- The database reads back the row that was inserted.
  pub registered_account_enters :
      ((db db' : env.Db) (account password nickname : Bytes)
        → env.insert_account db account password nickname ≡ inr db'
        → (salt : Bytes) × (env.find_account db' account
            ≡ some (record { password = password; salt = salt; nickname = nickname })))
      → (s : Server env) (conn : ℕ) (r : Registion) (db' : env.Db) (l : LoginIn)
      → env.insert_account s.db (c_str r.account) (c_str r.pass_md5) (c_str r.nickname) ≡ inr db'
      → find (c_str r.account) s.lookup ≡ none
      → c_str l.account ≡ c_str r.account
      → may_enter env (registion_action env s conn r) l
        ≡ str_eq (c_str r.pass_md5) (c_str l.pass_md5)
  registered_account_enters reads s conn r db' l e h same =
      let (salt, got) = reads s.db db' (c_str r.account) (c_str r.pass_md5) (c_str r.nickname) e in
      may_enter-row (registion_action env s conn r) l
        (record { password = c_str r.pass_md5; salt = salt; nickname = c_str r.nickname })
        (ap (λ a. find a (registion_action env s conn r).lookup) same
          ∙ ap (find (c_str r.account)) (registion-lookup env s conn r)
          ∙ h)
        (ap (env.find_account (registion_action env s conn r).db) same
          ∙ ap (λ db. env.find_account db (c_str r.account)) (registion-db s conn r db' e)
          ∙ got)
