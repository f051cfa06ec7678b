-- ===== src/Env/Tests.antt =====
-- A search path of two directories, "/a:/bin".
use nxos.Base.{ℕ, ◌≡◌, refl, true, false, some, List, [], ◌∷◌, arith}
use nxos.Env.{env_delimiter, cmd_delimiter, parse_loop, parse_line, build_line}
use nxos.Env.RoundTrip.{parse_line-build_line}

parse_line-build_line_example :
    (line : List ℕ) × (build_line env_delimiter 16
        ((47 ∷ 97 ∷ []) ∷ (47 ∷ 98 ∷ 105 ∷ 110 ∷ []) ∷ [])
      ≡ some (line, 2))
    × (parse_line env_delimiter 4 line
        ≡ some ((47 ∷ 97 ∷ []) ∷ (47 ∷ 98 ∷ 105 ∷ 110 ∷ []) ∷ [], true))
parse_line-build_line_example =
    parse_line-build_line env_delimiter 16 4 (47 ∷ 97 ∷ []) ((47 ∷ 98 ∷ 105 ∷ 110 ∷ []) ∷ []) refl
      (omega arith) (omega arith)

-- A delimiter at the end: NX_NULL is written one entry too far.
ends_in_delimiter :
    parse_line cmd_delimiter 4 (108 ∷ 115 ∷ 32 ∷ []) ≡ some ((108 ∷ 115 ∷ []) ∷ [], false)
unfolding parse_line parse_loop
ends_in_delimiter = refl
