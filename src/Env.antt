-- ===== src/Env.antt =====
-- src/process/env.c: lists of arguments as lines with delimiters. A string is the list of its bytes before
-- the end mark; `none` of a result is the answer -1.
pub mod RoundTrip
mod Tests
use nxos.Base.{
  ℕ, zero, suc, ◌+◌, ◌≡◌, Bool, true, false, not, ◌&&◌, ◌||◌, Option, none, some, List, [], ◌∷◌,
  ◌++◌, leb, ◌==◌, if◌then◌else◌, length, ◌>>=◌,
}

-- __CMD_DELIMITER and __ENV_DELIMITER.
abbrev pub cmd_delimiter : ℕ
cmd_delimiter = 32

abbrev pub env_delimiter : ℕ
env_delimiter = 58

-- The loops of `__ParseLine` over delimiters, and the bytes before and behind the first delimiter.
abbrev pub skip : (delimiter : ℕ) → List ℕ → List ℕ
skip d [] = []
skip d (c ∷ cs) = let rest = skip d cs in if c == d then rest else c ∷ cs

abbrev pub cut : (delimiter : ℕ) → List ℕ → List ℕ × Option (List ℕ)
cut d [] = ([], none)
cut d (c ∷ cs) = let rest = cut d cs in if c == d then ([], some cs) else (c ∷ rest.0, rest.1)

abbrev pub is_rooted : List ℕ → Bool
is_rooted [] = false
is_rooted (c ∷ cs) = c == 47

-- `__ParseLine` with `n` arguments left; with the arguments, whether NX_NULL is written right behind them
-- and not one entry further.
abbrev pub parsed :
    List ℕ × Option (List ℕ)
    → (List ℕ → Option (List (List ℕ) × Bool))
    → Option (List (List ℕ) × Bool)
parsed (word, none) next = some (word ∷ [], true)
parsed (word, some rest) next = next rest >>= λ r. some (word ∷ r.0, r.1)

unfoldable pub parse_loop : (delimiter n : ℕ) → List ℕ → Option (List (List ℕ) × Bool)
parse_loop d zero line = some ([], false)
parse_loop d (suc n) [] = some ([], false)
parse_loop d (suc n) (c ∷ cs) =
    let word = parsed (cut d (skip d (c ∷ cs))) (λ rest. parse_loop d n (skip d rest)) in
    if d == env_delimiter && not (is_rooted (skip d (c ∷ cs))) then none else word

unfoldable pub parse_line : (delimiter max_args : ℕ) → List ℕ → Option (List (List ℕ) × Bool)
unfolding parse_loop
parse_line d max_args line = if max_args == 0 then none else parse_loop d max_args line

-- `__BuildLine`
abbrev pub append_arg : (delimiter : ℕ) → List ℕ → List ℕ → List (List ℕ) → List ℕ
append_arg d buf a [] = buf ++ a
append_arg d buf a (b ∷ bs) = (buf ++ a) ++ d ∷ []

unfoldable pub build_loop :
    (delimiter buf_len : ℕ) → List ℕ → (argc : ℕ) → List (List ℕ) → Option (List ℕ × ℕ)
build_loop d buf_len buf argc [] = some (buf, argc)
build_loop d buf_len buf argc (a ∷ args) =
    let rest = build_loop d buf_len (append_arg d buf a args) (suc argc) args in
    if leb buf_len (length buf + length a + 1) then none else rest

unfoldable pub build_line : (delimiter buf_len : ℕ) → List (List ℕ) → Option (List ℕ × ℕ)
unfolding build_loop
build_line d buf_len args = if buf_len == 0 then none else build_loop d buf_len [] 0 args
