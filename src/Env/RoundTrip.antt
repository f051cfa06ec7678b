-- ===== src/Env/RoundTrip.antt =====
-- Lines built and parsed by src/process/env.c.
use nxos.Base.{
  ℕ, zero, suc, ◌+◌, ◌≤◌, ◌<◌, ◌≡◌, refl, ap, sym, ◌∙◌, Bool, true, false, not, ◌&&◌, ◌||◌, none,
  some, List, [], ◌∷◌, ◌++◌, leb, ◌==◌, arith, if◌then◌else◌, length, length-append, ◌>>=◌,
}
use nxos.Env.{
  env_delimiter, skip, cut, is_rooted, parsed, parse_loop, parse_line, append_arg, build_loop,
  build_line,
}

-- The arguments with a delimiter between each two.
abbrev pub join : (delimiter : ℕ) → List (List ℕ) → List ℕ
join d [] = []
join d (a ∷ []) = a
join d (a ∷ b ∷ args) = a ++ d ∷ join d (b ∷ args)

abbrev pub lacks : ℕ → List ℕ → Bool
lacks d [] = true
lacks d (c ∷ cs) = not (c == d) && lacks d cs

-- An argument: not empty, without the delimiter, and beginning with the root in an environment.
abbrev pub is_arg : ℕ → List ℕ → Bool
is_arg d [] = false
is_arg d (c ∷ cs) = lacks d (c ∷ cs) && (not (d == env_delimiter) || (c == 47))

abbrev pub are_args : ℕ → List (List ℕ) → Bool
are_args d [] = true
are_args d (a ∷ args) = is_arg d a && are_args d args

both : (p q : Bool) → p && q ≡ true → (p ≡ true) × (q ≡ true)
both true true h = (refl, refl)
both true false h = absurd (ground (arith, h))
both false q h = absurd (ground (arith, h))

cut-append : (d : ℕ) (a rest : List ℕ) → lacks d a ≡ true → cut d (a ++ d ∷ rest) ≡ (a, some rest)
cut-append d [] rest h =
    let e : (d == d) ≡ true = ground arith in
    ap (λ b. if b then ([], some rest) else (d ∷ (cut d rest).0, (cut d rest).1)) e
cut-append d (c ∷ cs) rest h =
    let (differs, others) = both (not (c == d)) (lacks d cs) h in
    let e : (c == d) ≡ false = ground (arith, differs) in
    ap
      (λ b.
        if b
        then ([], some (cs ++ d ∷ rest))
        else (c ∷ (cut d (cs ++ d ∷ rest)).0, (cut d (cs ++ d ∷ rest)).1))
      e
    ∙ ap (λ r. (c ∷ r.0, r.1)) (cut-append d cs rest others)

cut-last : (d : ℕ) (a : List ℕ) → lacks d a ≡ true → cut d a ≡ (a, none)
cut-last d [] h = refl
cut-last d (c ∷ cs) h =
    let (differs, others) = both (not (c == d)) (lacks d cs) h in
    let e : (c == d) ≡ false = ground (arith, differs) in
    ap (λ b. if b then ([], some cs) else (c ∷ (cut d cs).0, (cut d cs).1)) e
    ∙ ap (λ r. (c ∷ r.0, r.1)) (cut-last d cs others)

skip-none : (d c : ℕ) (cs : List ℕ) → (c == d) ≡ false → skip d (c ∷ cs) ≡ c ∷ cs
skip-none d c cs e = ap (λ b. if b then skip d cs else c ∷ cs) e

-- A line that begins with an argument is parsed from its first byte.
parse-first :
    (d n c : ℕ) (cs : List ℕ)
    → (c == d) ≡ false
    → not (d == env_delimiter) || (c == 47) ≡ true
    → parse_loop d (suc n) (c ∷ cs) ≡ parsed (cut d (c ∷ cs)) (λ rest. parse_loop d n (skip d rest))
unfolding parse_loop
parse-first d n c cs e rooted =
    let g : d == env_delimiter && not (c == 47) ≡ false =
      neither (d == env_delimiter) (c == 47) rooted in
    ap
      (λ line.
        if d == env_delimiter && not (is_rooted line)
        then none
        else parsed (cut d line) (λ rest. parse_loop d n (skip d rest)))
      (skip-none d c cs e)
    ∙ ap (λ b. if b then none else parsed (cut d (c ∷ cs)) (λ rest. parse_loop d n (skip d rest))) g
  where
    neither : (p q : Bool) → not p || q ≡ true → p && not q ≡ false
    neither true true h = refl
    neither true false h = absurd (ground (arith, h))
    neither false q h = refl

parse_loop-join :
    (d n : ℕ) (a : List ℕ) (args : List (List ℕ))
    → are_args d (a ∷ args) ≡ true
    → length args < n
    → parse_loop d n (join d (a ∷ args)) ≡ some (a ∷ args, true)
parse_loop-join d zero a args ok lt = absurd (omega (arith, lt))
parse_loop-join d (suc n) [] args ok lt = absurd (ground (arith, ok))
parse_loop-join d (suc n) (c ∷ cs) [] ok lt =
    let (arg, _) = both (is_arg d (c ∷ cs)) true ok in
    let (whole, rooted) = both (lacks d (c ∷ cs)) (not (d == env_delimiter) || (c == 47)) arg in
    let (differs, _) = both (not (c == d)) (lacks d cs) whole in
    parse-first d n c cs (ground (arith, differs)) rooted
    ∙ ap (λ r. parsed r (λ rest. parse_loop d n (skip d rest))) (cut-last d (c ∷ cs) whole)
parse_loop-join d (suc n) (c ∷ cs) ([] ∷ args) ok lt = absurd (ground (arith, ok))
parse_loop-join d (suc n) (c ∷ cs) ((b ∷ bs) ∷ args) ok lt =
    let (arg, others) = both (is_arg d (c ∷ cs)) (are_args d ((b ∷ bs) ∷ args)) ok in
    let (whole, rooted) = both (lacks d (c ∷ cs)) (not (d == env_delimiter) || (c == 47)) arg in
    let (differs, _) = both (not (c == d)) (lacks d cs) whole in
    let (arg2, _) = both (is_arg d (b ∷ bs)) (are_args d args) others in
    let (whole2, _) = both (lacks d (b ∷ bs)) (not (d == env_delimiter) || (b == 47)) arg2 in
    let (differs2, _) = both (not (b == d)) (lacks d bs) whole2 in
    let line = join d ((b ∷ bs) ∷ args) in
    parse-first d n c (cs ++ d ∷ line) (ground (arith, differs)) rooted
    ∙ ap (λ r. parsed r (λ rest. parse_loop d n (skip d rest))) (cut-append d (c ∷ cs) line whole)
    ∙ ap (λ l. parse_loop d n l >>= λ r. some ((c ∷ cs) ∷ r.0, r.1))
        (skip-line args (ground (arith, differs2)))
    ∙ ap (λ o. o >>= λ r. some ((c ∷ cs) ∷ r.0, r.1))
        (parse_loop-join d n (b ∷ bs) args others (omega (arith, lt)))
  where
    skip-line :
        (args : List (List ℕ))
        → (b == d) ≡ false
        → skip d (join d ((b ∷ bs) ∷ args)) ≡ join d ((b ∷ bs) ∷ args)
    skip-line [] e = skip-none d b bs e
    skip-line (x ∷ xs) e = skip-none d b (bs ++ d ∷ join d (x ∷ xs)) e

append_assoc : (xs ys zs : List ℕ) → (xs ++ ys) ++ zs ≡ xs ++ (ys ++ zs)
append_assoc [] ys zs = refl
append_assoc (x ∷ xs) ys zs = ap (λ l. x ∷ l) (append_assoc xs ys zs)

append_nil : (xs : List ℕ) → xs ++ [] ≡ xs
append_nil [] = refl
append_nil (x ∷ xs) = ap (λ l. x ∷ l) (append_nil xs)

append_one : (d : ℕ) (xs ys : List ℕ) → (xs ++ d ∷ []) ++ ys ≡ xs ++ d ∷ ys
append_one d [] ys = refl
append_one d (x ∷ xs) ys = ap (λ l. x ∷ l) (append_one d xs ys)

append_arg-join :
    (d : ℕ) (buf a : List ℕ) (args : List (List ℕ))
    → append_arg d buf a args ++ join d args ≡ buf ++ join d (a ∷ args)
append_arg-join d buf a [] = append_nil (buf ++ a)
append_arg-join d buf a (b ∷ args) =
    let first : ((buf ++ a) ++ d ∷ []) ++ join d (b ∷ args) ≡ (buf ++ a) ++ d ∷ join d (b ∷ args) =
      append_one d (buf ++ a) (join d (b ∷ args)) in
    let second : (buf ++ a) ++ d ∷ join d (b ∷ args) ≡ buf ++ join d (a ∷ b ∷ args) =
      append_assoc buf a (d ∷ join d (b ∷ args)) in
    first ∙ second

build_loop-join :
    (d buf_len : ℕ) (buf : List ℕ) (argc : ℕ) (args : List (List ℕ))
    → length (buf ++ join d args) + 1 < buf_len
    → build_loop d buf_len buf argc args ≡ some (buf ++ join d args, argc + length args)
unfolding build_loop
build_loop-join d buf_len buf argc [] fits =
    ap (λ l. some (l, argc)) (sym (append_nil buf))
    ∙ ap (λ n. some (buf ++ [], n)) {x = argc} {y = argc + 0} (omega arith)
build_loop-join d buf_len buf argc (a ∷ args) fits =
    let same = append_arg-join d buf a args in
    let grown : length (append_arg d buf a args ++ join d args)
        ≡ length (buf ++ join d (a ∷ args)) =
      ap (λ l. length l) same in
    let b : leb buf_len (length buf + length a + 1) ≡ false = over (length buf + length a) (
      omega
        (arith, fits, grown, length-append (append_arg d buf a args) (join d args), longer args)) in
    ap (λ t. if t then none else build_loop d buf_len (append_arg d buf a args) (suc argc) args) b
    ∙ build_loop-join d buf_len (append_arg d buf a args) (suc argc) args
        (omega (arith, fits, grown))
    ∙ ap (λ l. some (l, suc argc + length args)) same
    ∙ ap (λ n. some (buf ++ join d (a ∷ args), n)) {x = suc argc + length args}
        {y = argc + suc (length args)} (omega arith)
  where
    longer : (rest : List (List ℕ)) → length buf + length a ≤ length (append_arg d buf a rest)
    longer [] = omega (arith, length-append buf a)
    longer (x ∷ xs) = omega (arith, length-append buf a, length-append (buf ++ a) (d ∷ []))

    over : (n : ℕ) → n + 1 < buf_len → leb buf_len (n + 1) ≡ false
    over n h = ground (arith, h)

-- One argument or more, as many as the parser takes at most, none empty or with the delimiter in it, and in an
-- environment each beginning with the root: a buffer with room for the line, its end mark and one more byte
-- gets the line with a delimiter between each two, the number of arguments is returned, and parsing the line
-- gives the arguments back with NX_NULL right behind them.
pub parse_line-build_line :
    (d buf_len max_args : ℕ) (a : List ℕ) (args : List (List ℕ))
    → are_args d (a ∷ args) ≡ true
    → suc (length args) ≤ max_args
    → length (join d (a ∷ args)) + 1 < buf_len
    → (line : List ℕ) × (build_line d buf_len (a ∷ args) ≡ some (line, suc (length args)))
      × (parse_line d max_args line ≡ some (a ∷ args, true))
unfolding build_line parse_line
parse_line-build_line d buf_len max_args a args ok few fits =
    let b0 : (buf_len == 0) ≡ false = positive buf_len (omega (arith, fits)) in
    let b1 : (max_args == 0) ≡ false = positive max_args (omega (arith, few)) in
    (
      join d (a ∷ args),
      ap (λ b. if b then none else build_loop d buf_len [] 0 (a ∷ args)) b0
          ∙ build_loop-join d buf_len [] 0 (a ∷ args) fits
          ∙ ap (λ n. some (join d (a ∷ args), n)) {x = 0 + suc (length args)}
              {y = suc (length args)} (omega arith),
      ap (λ b. if b then none else parse_loop d max_args (join d (a ∷ args))) b1
          ∙ parse_loop-join d max_args a args ok (omega (arith, few)),
    )
  where
    positive : (n : ℕ) → 0 < n → (n == 0) ≡ false
    positive n h = ground (arith, h)
