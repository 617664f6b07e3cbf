-- ===== src/Socket/Epoll.antt =====
-- class Epoll of include/dog_socket.h: the calls of epoll_ctl() that it makes and its loop, over what
-- each epoll_wait(), accept() and read gives. The visitor of the program is a parameter.
use tcp_labs.Base.{ℕ, Bool, true, false, List, [], ◌∷◌, Option, none, some, ◌==◌, if◌then◌else◌}

-- A call of epoll_ctl() that has been made.
pub data Ctl : Type 0 where
  added : ℕ → Ctl
  deleted : ℕ → Ctl

-- `ctl` are the calls, newest first. `server` is -1 before set_server().
pub record Epoll : Type 0 where
  pub server : Option ℕ
  pub ctl : List Ctl

abbrev pub new_epoll : Epoll
new_epoll = record { server = none; ctl = [] }

unfoldable pub insert : Epoll → ℕ → Epoll
insert e fd = record e { ctl = added fd ∷ e.ctl }

unfoldable pub erase : Epoll → ℕ → Epoll
erase e fd = record e { ctl = deleted fd ∷ e.ctl }

-- On whether epoll_ctl() succeeds: `none` is the end of the process.
unfoldable pub set_server : Epoll → ℕ → Bool → Option Epoll
unfolding insert
set_server e fd ok = if ok then some (insert (record e { server = some fd }) fd) else none

-- sizeof(sockaddr_in)
abbrev pub addrlen : ℕ
addrlen = 16

-- TCP::accept() on the descriptor and the address length that accept() gives.
unfoldable pub accept : Option (ℕ × ℕ) → Option ℕ
accept none = none
accept (some (fd, cli_addrlen)) = if cli_addrlen == addrlen then some fd else none

unfoldable pub is_server : Epoll → ℕ → Bool
is_server e fd = elim e.server [ none ↦ false | some l ↦ fd == l ]

-- What a round of the loop meets: the number of events is not one, or a descriptor is ready, with
-- what accept() or the reads of the visitor give then.
pub data Wake (Got : Type 0) : Type 0 where
  no_event : Wake Got
  ready : ℕ → Option (ℕ × ℕ) → Got → Wake Got

module _ {S Got : Type 0} (visitor : S × Epoll → ℕ → Got → Option (S × Epoll)) where
  unfoldable pub round : S × Epoll → Wake Got → Option (S × Epoll)
  unfolding is_server accept insert
  round s no_event = none
  round (s, e) (ready fd accepted got) =
      if is_server e fd
      then elim (accept accepted) [ none ↦ none | some conn ↦ some (s, insert e conn) ]
      else visitor (s, e) fd got

  unfoldable pub run : S × Epoll → List (Wake Got) → Option (S × Epoll)
  unfolding round
  run s [] = some s
  run s (wake ∷ wakes) = elim (round s wake) [ none ↦ none | some s' ↦ run s' wakes ]

-- Is the last call about the descriptor one that adds it?
unfoldable pub is_watched : List Ctl → ℕ → Bool
is_watched [] c = false
is_watched (added fd ∷ ctl) c = if fd == c then true else is_watched ctl c
is_watched (deleted fd ∷ ctl) c = if fd == c then false else is_watched ctl c
