-- ===== src/Strings.antt =====
-- src/utils/string.c and src/utils/ctype.c. A pointer to characters is the bytes from it to the end of
-- the object that it points into, as unsigned numbers; a loop that leaves the object is `none`. A
-- difference of two characters that C returns is the pair of them. NX_StrDup allocates, and is
-- NX_StrLen and NX_MemCopy.
pub mod Copies
pub mod Numbers
mod Tests
use nxos.Base.{
  ℕ, zero, suc, ◌+◌, ◌-◌, ◌*◌, ◌/◌, ◌%◌, ◌^◌, ◌≡◌, Bool, true, false, ◌&&◌, ◌||◌, not, Option, none,
  some, List, [], ◌∷◌, ◌++◌, ltb, leb, ◌==◌, if◌then◌else◌, ◌>>=◌, word, sub_word, length, take,
  drop,
}

abbrev pub next_char : ℕ → Option (List ℕ) → Option (List ℕ)
next_char c none = none
next_char c (some cs) = some (c ∷ cs)

-- `NX_StrLen`
abbrev pub one_more : Option ℕ → Option ℕ
one_more none = none
one_more (some n) = some (n + 1)

unfoldable pub str_len : List ℕ → Option ℕ
str_len [] = none
str_len (c ∷ cs) = if c == 0 then some 0 else one_more (str_len cs)

-- `NX_StrCopy`: the object of the target after it.
unfoldable pub str_copy : (dst src : List ℕ) → Option (List ℕ)
str_copy [] src = none
str_copy (d ∷ ds) [] = none
str_copy (d ∷ ds) (c ∷ cs) = if c == 0 then some (0 ∷ ds) else next_char c (str_copy ds cs)

-- `NX_MemCopy` of `n` bytes from one object to another one.
abbrev pub copy_bytes : (dst src : List ℕ) (n : ℕ) → Option (List ℕ)
copy_bytes dst src zero = some dst
copy_bytes [] src (suc n) = none
copy_bytes (d ∷ ds) [] (suc n) = none
copy_bytes (d ∷ ds) (c ∷ cs) (suc n) = next_char c (copy_bytes ds cs n)

-- The write of a byte at an index.
abbrev pub put_byte : List ℕ → (n value : ℕ) → Option (List ℕ)
put_byte [] n v = none
put_byte (c ∷ cs) zero v = some (v ∷ cs)
put_byte (c ∷ cs) (suc n) v = next_char c (put_byte cs n v)

-- `NX_StrCopyN`
abbrev copied_n : (dst src : List ℕ) (n : ℕ) → Option (List ℕ)
copied_n dst src n = copy_bytes dst src n >>= λ dst'. put_byte dst' n 0

unfoldable pub str_copy_n : (dst src : List ℕ) (len : ℕ) → Option (List ℕ × ℕ)
str_copy_n dst src len = do
  ret ← str_len src
  dst' ← (if len == 0 then some dst else copied_n dst src (if leb len ret then len - 1 else ret))
  some (dst', ret)

-- `NX_StrCmp`
unfoldable pub str_cmp : (a b : List ℕ) → Option (ℕ × ℕ)
str_cmp [] b = none
str_cmp (a ∷ as') [] = none
str_cmp (a ∷ as') (b ∷ bs) = if not (a == 0) && a == b then str_cmp as' bs else some (a, b)

-- `NX_StrCmpN`; two characters that are the same stand for the difference 0.
unfoldable pub str_cmp_n : (s1 s2 : List ℕ) (n : ℕ) → Option (ℕ × ℕ)
str_cmp_n s1 s2 zero = some (0, 0)
str_cmp_n [] s2 (suc n) = none
str_cmp_n (a ∷ as') [] (suc n) = none
str_cmp_n (a ∷ as') (b ∷ bs) (suc n) =
    if not (a == b) || a == 0
    then some (a, b)
    else (if n == 0 then some (a, b) else str_cmp_n as' bs n)

-- `NX_StrChr`: the index of the character found, if any.
unfoldable pub str_chr : (s : List ℕ) (c : ℕ) → Option (Option ℕ)
str_chr [] c = none
str_chr (a ∷ as') c =
    if a == c
    then some (some 0)
    else (if a == 0
        then some none
        else elim (str_chr as' c) [ none ↦ none | some r ↦ some (one_more r) ])

-- `NX_StrCat`
unfoldable pub str_cat : (dst src : List ℕ) → Option (List ℕ)
unfolding str_copy
str_cat [] src = none
str_cat (d ∷ ds) src = if d == 0 then str_copy (d ∷ ds) src else next_char d (str_cat ds src)

-- `NX_StrCatN`; the length that is left wraps when the target is longer than it.
unfoldable pub str_cat_n : (dst src : List ℕ) (n : ℕ) → Option (List ℕ × ℕ)
unfolding str_len
str_cat_n dst src n = do
  dsize ← str_len dst
  len ← str_len src
  tail ←
      copied_n (drop dsize dst) src
        (if leb (sub_word n dsize) len then sub_word (sub_word n dsize) 1 else len)
  some (take dsize dst ++ tail, dsize + len)

-- `NX_IsDigit`, `NX_IsSpace`, `NX_IsUpper` and `NX_IsAlpha` of a byte: a difference of 32 bits wraps.
abbrev pub sub_unsigned : ℕ → ℕ → ℕ
sub_unsigned a b = (a + 2 ^ 32 - b) % 2 ^ 32

abbrev pub is_digit : ℕ → Bool
is_digit c = ltb (sub_unsigned c 48) 10

abbrev pub is_space : ℕ → Bool
is_space c = c == 32 || ltb (sub_unsigned c 9) 5

abbrev pub is_upper : ℕ → Bool
is_upper c = ltb (sub_unsigned c 65) 26

abbrev pub is_alpha : ℕ → Bool
is_alpha c = ltb (sub_unsigned (if c / 32 % 2 == 1 then c else c + 32) 97) 26

-- The value of a digit in the loop of `NX_StrToUL`, and `none` where the loop ends.
abbrev pub digit_of : (base c : ℕ) → Option ℕ
digit_of base c =
    let value =
      if is_digit c
      then some (c - 48)
      else (if is_alpha c then some (if is_upper c then c - 55 else c - 87) else none) in
    value >>= λ d. if leb base d then none else some d

-- `any`: no digit yet, some, or more than fit.
pub data Any : Type 0 where
  no_digits digits overflow : Any

-- A round of the loop with a digit below the base.
abbrev pub add_digit : (base acc : ℕ) → Any → (d : ℕ) → ℕ × Any
add_digit base acc overflow d = (acc, overflow)
add_digit base acc _ d =
    if ltb ((word - 1) / base) acc || acc == (word - 1) / base && ltb ((word - 1) % base) d
    then (word - 1, overflow)
    else ((acc * base % word + d) % word, digits)

-- The loop of `NX_StrToUL`, with the bytes from the character that ends it on.
pub record Digits : Type 0 where
  pub acc : ℕ
  pub any : Any
  pub rest : List ℕ

unfoldable pub digits_loop : (base : ℕ) → List ℕ → ℕ × Any → Option Digits
digits_loop base [] now = none
digits_loop base (c ∷ cs) now = elim (digit_of base c) [
  | none ↦ some (record { acc = now.0; any = now.1; rest = c ∷ cs })
  | some d ↦ digits_loop base cs (add_digit base now.0 now.1 d)
]

-- The first loop of `NX_StrToUL`: the bytes from the first that is no space.
unfoldable pub skip_spaces : List ℕ → List ℕ
skip_spaces [] = []
skip_spaces (c ∷ cs) = if is_space c then skip_spaces cs else c ∷ cs

-- The sign, and the bytes after it.
abbrev pub take_sign : List ℕ → Bool × List ℕ
take_sign [] = (false, [])
take_sign (c ∷ cs) = if c == 45 then (true, cs) else (false, if c == 43 then cs else c ∷ cs)

-- The prefix of base 16, and the base from the first digit.
abbrev pub first_zero : List ℕ → Bool
first_zero [] = false
first_zero (c ∷ cs) = c == 48

abbrev pub has_prefix : List ℕ → Bool
has_prefix (c ∷ x ∷ cs) = c == 48 && (x == 120 || x == 88)
has_prefix _ = false

abbrev pub take_base : (base : ℕ) → List ℕ → ℕ × List ℕ
take_base base cs =
    if (base == 0 || base == 16) && has_prefix cs
    then (16, drop 2 cs)
    else (if base == 0 then (if first_zero cs then 8 else 10) else base, cs)

-- The end of `NX_StrToUL`: the value and the bytes that `endptr` points to.
abbrev pub finish : List ℕ → (neg : Bool) → Digits → ℕ × List ℕ
finish nptr neg d = elim d.any [
  | no_digits ↦ (d.acc, nptr)
  | digits ↦ (if neg then (word - d.acc) % word else d.acc, d.rest)
  | overflow ↦ (d.acc, d.rest)
]

-- `NX_StrToUL` with a base that is not negative.
unfoldable pub str_to_ul : (nptr : List ℕ) → (base : ℕ) → Option (ℕ × List ℕ)
unfolding digits_loop skip_spaces
str_to_ul nptr base =
    let (neg, unsigned) = take_sign (skip_spaces nptr) in
    let (base', cs) = take_base base unsigned in
    digits_loop base' cs (0, no_digits) >>= λ d. some (finish nptr neg d)
