-- ===== src/Socket/Tests.antt =====
-- readn() and writen() at inputs.
use tcp_labs.Base.{ℕ, ◌≡◌, refl, List, [], ◌∷◌, ◌++◌, length, arith}
use tcp_labs.Socket.{ReadCall, filled, read_failed, read_done, readn, took, write_done, writen}
use tcp_labs.Socket.Exact.{delivered, readn_exact, writen_exact}

abbrev cuts : List ReadCall
cuts = filled (1 ∷ 2 ∷ []) ∷ filled (3 ∷ []) ∷ filled (4 ∷ 5 ∷ []) ∷ read_failed ∷ []

readn_runs : readn 3 cuts ≡ read_done (1 ∷ 2 ∷ 3 ∷ []) (filled (4 ∷ 5 ∷ []) ∷ read_failed ∷ [])
unfolding readn
readn_runs = refl

-- The stream ends early: fewer bytes than asked for.
readn_short : readn 3 (filled (1 ∷ []) ∷ filled [] ∷ []) ≡ read_done (1 ∷ []) []
unfolding readn
readn_short = refl

readn_exact_example :
    (rest : List ReadCall) × (got : List ℕ) × (readn 5 cuts ≡ read_done got rest)
    × (length got ≡ 5)
    × (delivered cuts ≡ got ++ delivered rest)
readn_exact_example = readn_exact 5 cuts (omega arith) (omega arith)

writen_exact_example : writen (7 ∷ 8 ∷ 9 ∷ []) (took 1 ∷ took 2 ∷ []) ≡ write_done (7 ∷ 8 ∷ 9 ∷ [])
writen_exact_example = writen_exact (7 ∷ 8 ∷ 9 ∷ []) (took 1 ∷ took 2 ∷ []) (omega arith)
