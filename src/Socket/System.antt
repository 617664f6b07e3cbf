-- ===== src/Socket/System.antt =====
-- The system under class Communication, class TCP and class UDP: the calls that they make, as a
-- parameter, and a process that may end by exit(-1).
use tcp_labs.Base.{ℕ, Bool, true, false, List, ◌∷◌, Option, none, some}

-- sockaddr_in, in network byte order.
pub record Sockaddr : Type 0 where
  pub sin_family : ℕ
  pub sin_port : ℕ
  pub sin_addr : ℕ

-- The calls of libc and of the kernel. `none` and `false` are -1, or the null pointer of fopen().
-- A socket is made with its type, a file is opened with `true` for "wb".
pub record Os : Type 1 where
  pub World : Type 0
  pub socket : ℕ → World → Option ℕ × World
  pub connect : ℕ → Sockaddr → World → Bool × World
  pub bind : ℕ → Sockaddr → World → Bool × World
  pub listen : ℕ → ℕ → World → Bool × World
  pub close : ℕ → World → Bool × World
  pub getsockname : ℕ → World → Option Sockaddr
  pub getpeername : ℕ → World → Option Sockaddr
  pub set_reuse : ℕ → World → World
  pub set_timeout : ℕ → ℕ → World → World
  pub send : ℕ → List ℕ → World → World
  pub fopen : List ℕ → Bool → World → Option ℕ × World
  pub fclose : Option ℕ → World → World
  pub file_size : List ℕ → World → Option ℕ
  pub htons : ℕ → ℕ
  pub ntohs : ℕ → ℕ
  pub htonl : ℕ → ℕ
  pub ntohl : ℕ → ℕ

-- A thread that has been started, by its socket, its file and the length.
pub data Task : Type 0 where
  receiving : ℕ → Option ℕ → ℕ → Task
  sending : ℕ → Option ℕ → ℕ → Task

module _ (os : Os) where
  pub record Process : Type 0 where
    pub world : os.World
    pub started : List Task

  -- `none` is exit(-1).
  abbrev pub Run : Type 0 → Type 0
  Run A = Process → Option (A × Process)

  abbrev pub pure : {A : Type 0} → A → Run A
  pure a p = some (a, p)

  -- A call whose status -1 ends the process.
  abbrev pub checked : (os.World → Bool × os.World) → Run (Unit {0})
  checked call p =
      let (ok, world) = call p.world in
      elim ok [ true ↦ some (tt, record p { world = world }) | false ↦ none ]

  abbrev pub opened : (os.World → Option ℕ × os.World) → Run ℕ
  opened call p =
      let (result, world) = call p.world in
      elim result [ none ↦ none | some fd ↦ some (fd, record p { world = world }) ]

  -- A call whose result is not tested.
  abbrev pub plain : (os.World → os.World) → Run (Unit {0})
  plain call p = some (tt, record p { world = call p.world })

  abbrev pub asked : {A : Type 0} → (os.World → Option A) → Run A
  asked call p = elim (call p.world) [ none ↦ none | some a ↦ some (a, p) ]

  abbrev pub start_thread : Task → Run (Unit {0})
  start_thread task p = some (tt, record p { started = task ∷ p.started })

infixl 5 ◌>>=◌ ◌>>◌
abbrev pub ◌>>=◌ : {os : Os} {A B : Type 0} → Run os A → (A → Run os B) → Run os B
◌>>=◌ m f p = elim (m p) [ none ↦ none | some (a, p') ↦ f a p' ]

abbrev pub ◌>>◌ : {os : Os} {B : Type 0} → Run os (Unit {0}) → Run os B → Run os B
m >> k = m >>= λ _. k
