-- ===== src/Server/Closing.antt =====
-- The loop of Epoll::visitor() in server/server.cpp over the table `lookup`, for a connection that is
-- closed, and the number of accounts on a connection.
use tcp_labs.Base.{
  ℕ, ◌≤◌, ◌≡◌, ◌≢◌, refl, ap, sym, ◌∙◌, ◌⊎◌, inl, inr, if◌then◌else◌, true, false, List, [], ◌∷◌,
  some, ◌==◌, arith,
}
use tcp_labs.Base.Maps.{
  Map, find, erase_value, count_value, count_value-erase_value, find-ne_of_count,
}
use tcp_labs.Protocol.Structs.{LoginIn, RawData, login_in}
use tcp_labs.Protocol.Dispatch.{Received, received, closed}
use tcp_labs.Server.Environment.{Environment}
use tcp_labs.Server.Actions.{Server, login_in_action, action, close_conn, visitor}
use tcp_labs.Server.Sessions.{may_enter, login-count, is_login, action-lookup}

-- No connection has more than one account.
abbrev pub IsSingle : Map → Type 0
IsSingle m = (c : ℕ) → count_value c m ≤ 1

-- A key with another value keeps it.
pub find-erase_value :
    (k : List ℕ) (v w : ℕ) (m : Map)
    → (w == v) ≡ false
    → find k m ≡ some w
    → find k (erase_value v m) ≡ some w
unfolding find erase_value
find-erase_value k v w [] h e = absurd (ground arith)
find-erase_value k v w ((j, u) ∷ m) h e = ground (arith, find-erase_value k v w m)

-- The pairs with other values.
unfoldable pub without : ℕ → Map → Map
without v [] = []
without v ((j, w) ∷ m) = let rest = without v m in if w == v then rest else (j, w) ∷ rest

without_other : (v : ℕ) (m : Map) → count_value v m ≡ 0 → without v m ≡ m
unfolding without count_value
without_other v [] h = refl
without_other v ((j, w) ∷ m) h = ground (arith, without_other v m)

erase_value-without : (v : ℕ) (m : Map) → count_value v m ≤ 1 → erase_value v m ≡ without v m
unfolding erase_value without count_value
erase_value-without v [] h = refl
erase_value-without v ((j, w) ∷ m) h = ground (arith, without_other v m, erase_value-without v m)

module _ (env : Environment) where
  pub login_in-cases :
      (m : RawData) → (((r : LoginIn) × (m ≡ login_in r)) ⊎ (is_login env m ≡ false))
  login_in-cases (login_in r) = inl (r, refl)
  login_in-cases _ = inr refl

  -- When a connection has at most one account, no account is on it once it is closed, and an
  -- account on another connection stays where it is.
  pub close_conn-find :
      (s : Server env) (conn c : ℕ) (j k : List ℕ)
      → count_value conn s.lookup ≤ 1
      → (c == conn) ≡ false
      → find k s.lookup ≡ some c
      → (find j (close_conn env s conn).lookup ≢ some conn)
        × (find k (close_conn env s conn).lookup ≡ some c)
  unfolding close_conn
  close_conn-find s conn c j k one other at_c = (
    find-ne_of_count j conn (erase_value conn s.lookup)
        (ground (arith, count_value-erase_value conn conn s.lookup)),
    find-erase_value k conn c s.lookup other at_c,
  )

  -- When a connection has at most one account, the table without the pair that the loop finds is the
  -- table of all accounts on other connections, in their order.
  pub close_conn-without :
      (s : Server env) (conn : ℕ)
      → count_value conn s.lookup ≤ 1
      → (close_conn env s conn).lookup ≡ without conn s.lookup
  unfolding close_conn
  close_conn-without s conn one = erase_value-without conn s.lookup one

  -- A connection on which a login enters one account more has as many accounts after it is closed as
  -- it had before that login.
  pub close_conn-login_in_action :
      (s : Server env) (conn : ℕ) (r : LoginIn)
      → may_enter env s r ≡ true
      → count_value conn (close_conn env (login_in_action env s conn r) conn).lookup
        ≡ count_value conn s.lookup
  unfolding close_conn
  close_conn-login_in_action s conn r may = ground (
    arith,
    login-count env s conn conn r,
    count_value-erase_value conn conn (login_in_action env s conn r).lookup,
  )

  -- If no connection has more than one account, and a login comes only on a connection that has
  -- none, then no connection has more than one after whatever visitor() takes without an end of the
  -- process.
  pub visitor-IsSingle :
      (s s' : Server env) (conn : ℕ) (got : Received)
      → IsSingle s.lookup
      → ((r : LoginIn) (rest : List ℕ)
          → got ≡ received (login_in r) rest
          → count_value conn s.lookup ≡ 0)
      → visitor env s conn got ≡ some s'
      → IsSingle s'.lookup
  unfolding visitor close_conn action
  visitor-IsSingle s s' conn closed one fresh e c =
      ground (arith, one c, count_value-erase_value c conn s.lookup)
  visitor-IsSingle s s' conn (received m rest) one fresh e c = elim (login_in-cases m) [
    | inl (r, eq) ↦
        let e' : some (login_in_action env s conn r) ≡ some s' =
          ap (action env s conn) (sym eq) ∙ e in
        let none_here = fresh r rest (ap (λ m. received m rest) eq) in
        ground (arith, e', none_here, one c, login-count env s conn c r)
    | inr other ↦ ground (arith, one c, action-lookup env s s' conn m other e)
  ]
  visitor-IsSingle s s' conn _ one fresh e c = absurd (ground arith)
