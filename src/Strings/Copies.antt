-- ===== src/Strings/Copies.antt =====
-- Copying, comparing and joining strings with src/utils/string.c.
use nxos.Base.{
  ℕ, zero, suc, ◌+◌, ◌-◌, ◌≤◌, ◌<◌, ◌≡◌, ◌≢◌, refl, ap, sym, ◌↔◌, none, some, List, [], ◌∷◌, ◌++◌,
  arith, ltb, leb, if◌then◌else◌, ◌>>=◌, word, sub_word, length, take, drop, ℕ_discrete,
  length-append,
}
use nxos.Strings.{str_len, str_copy, copy_bytes, put_byte, copied_n, str_copy_n, str_cmp, str_cat_n}

-- A string has no end among its characters.
abbrev pub NoEnd : List ℕ → Type 0
NoEnd [] = Unit {0}
NoEnd (c ∷ cs) = (c ≢ 0) × NoEnd cs

-- The bytes of a string, with those of its object behind it.
abbrev pub bytes_of : (s behind : List ℕ) → List ℕ
bytes_of s behind = s ++ 0 ∷ behind

pub str_len_lem : (s behind : List ℕ) → NoEnd s → str_len (bytes_of s behind) ≡ some (length s)
unfolding str_len
str_len_lem [] behind clear = refl
str_len_lem (c ∷ cs) behind clear = ground (arith, str_len_lem cs behind clear.1, clear.0)

-- `NX_StrCopy` writes exactly the string and its end to the target, and leaves what is behind them, when
-- the target has room for both; it leaves the target's object when there is no room.
pub str_copy-fits :
    (dst s behind : List ℕ)
    → NoEnd s
    → str_copy dst (bytes_of s behind)
      ≡ (if ltb (length s) (length dst) then some (s ++ 0 ∷ drop (suc (length s)) dst) else none)
unfolding str_copy
str_copy-fits [] s behind clear = ground arith
str_copy-fits (d ∷ ds) [] behind clear = ground arith
str_copy-fits (d ∷ ds) (c ∷ cs) behind clear =
    ground (arith, str_copy-fits ds cs behind clear.1, clear.0)

copy_bytes_lem :
    (dst src : List ℕ) (n : ℕ)
    → n ≤ length dst
    → n ≤ length src
    → copy_bytes dst src n ≡ some (take n src ++ drop n dst)
copy_bytes_lem dst src zero a b = refl
copy_bytes_lem [] src (suc n) a b = absurd (omega arith)
copy_bytes_lem (d ∷ ds) [] (suc n) a b = absurd (omega arith)
copy_bytes_lem (d ∷ ds) (c ∷ cs) (suc n) a b =
    ground (arith, copy_bytes_lem ds cs n (omega arith) (omega arith))

put_byte_lem :
    (src dst : List ℕ) (n value : ℕ)
    → n ≤ length src
    → n < length dst
    → put_byte (take n src ++ drop n dst) n value ≡ some (take n src ++ value ∷ drop (suc n) dst)
put_byte_lem src [] n value a b = absurd (omega arith)
put_byte_lem src (d ∷ ds) zero value a b = refl
put_byte_lem [] (d ∷ ds) (suc n) value a b = absurd (omega arith)
put_byte_lem (c ∷ cs) (d ∷ ds) (suc n) value a b =
    ground (arith, put_byte_lem cs ds n value (omega arith) (omega arith))

-- How many characters of a string fit before the end in `len` bytes.
abbrev pub kept_length : (len n : ℕ) → ℕ
kept_length len n = if leb len n then len - 1 else n

take_bytes : (n : ℕ) (s behind : List ℕ) → n ≤ length s → take n (bytes_of s behind) ≡ take n s
take_bytes zero s behind h = refl
take_bytes (suc n) [] behind h = absurd (omega arith)
take_bytes (suc n) (c ∷ cs) behind h = ap (λ l. c ∷ l) (take_bytes n cs behind (omega arith))

-- `NX_StrCopyN` into a target of at least `len` bytes, `len` not 0, never leaves it: it writes the
-- characters that fit before the last of the `len` bytes, then the end of the string, leaves the bytes
-- behind it, and returns the length of the whole string.
pub str_copy_n_lem :
    (dst s behind : List ℕ) (len : ℕ)
    → NoEnd s
    → 0 < len
    → len ≤ length dst
    → str_copy_n dst (bytes_of s behind) len
      ≡ some (
        take (kept_length len (length s)) s ++ 0 ∷ drop (suc (kept_length len (length s))) dst,
        length s,
      )
unfolding str_copy_n
str_copy_n_lem dst s behind len clear pos room =
    let n = kept_length len (length s) in
    ground (arith, str_len_lem s behind clear, copied dst s behind n (ground arith) (ground arith))
  where
    copied :
        (dst s behind : List ℕ) (n : ℕ)
        → n ≤ length s
        → n < length dst
        → copied_n dst (bytes_of s behind) n ≡ some (take n s ++ 0 ∷ drop (suc n) dst)
    copied dst s behind n a b = ground (
      arith,
      copy_bytes_lem dst (bytes_of s behind) n (omega arith)
          (omega (arith, length-append s (0 ∷ behind))),
      put_byte_lem (bytes_of s behind) dst n 0 (omega (arith, length-append s (0 ∷ behind))) b,
      take_bytes n s behind a,
    )

-- `NX_StrCmp` finds no difference exactly when the strings are the same.
pub str_cmp-same :
    (s t behind behind' : List ℕ)
    → NoEnd s
    → NoEnd t
    → (a : ℕ) × (b : ℕ) × (str_cmp (bytes_of s behind) (bytes_of t behind') ≡ some (a, b))
      × ((a ≡ b) ↔ (s ≡ t))
unfolding str_cmp
str_cmp-same [] [] behind behind' p q = (0, 0, refl, (λ e. refl, λ e. refl))
str_cmp-same [] (d ∷ ds) behind behind' p q =
    (0, d, refl, (λ e. absurd (q.0 (sym e)), λ e. absurd (ground arith)))
str_cmp-same (c ∷ cs) [] behind behind' p q =
    (c, 0, ground arith, (λ e. absurd (p.0 e), λ e. absurd (ground arith)))
str_cmp-same (c ∷ cs) (d ∷ ds) behind behind' p q = elim (ℕ_discrete c d) [
  | no ne ↦ (c, d, ground (arith, ne), (λ e. absurd (ne e), λ e. absurd (ne (ground (arith, e)))))
  | yes e ↦
      let (a, b, did, (to, from)) = str_cmp-same cs ds behind behind' p.1 q.1 in
      (
        a,
        b,
        ground (arith, did, e, p.0),
        (λ h. ground (arith, to h, e), λ h. from (ground (arith, h))),
      )
]

copy_bytes-none : (dst src : List ℕ) (n : ℕ) → length dst < n → copy_bytes dst src n ≡ none
copy_bytes-none dst src zero h = absurd (omega arith)
copy_bytes-none [] src (suc n) h = refl
copy_bytes-none (d ∷ ds) [] (suc n) h = refl
copy_bytes-none (d ∷ ds) (c ∷ cs) (suc n) h = ground (arith, copy_bytes-none ds cs n (omega arith))

length-drop_le : (n : ℕ) (xs : List ℕ) → length (drop n xs) ≤ length xs
length-drop_le zero xs = omega arith
length-drop_le (suc n) [] = omega arith
length-drop_le (suc n) (x ∷ xs) = omega (arith, length-drop_le n xs)

-- When the string in the target is as long as the limit given to `NX_StrCatN`, the room that is left
-- wraps below 0, and the copy leaves the target's object, whatever room that has and whatever is joined.
pub str_cat_n-overrun :
    (dst dst_behind src behind : List ℕ)
    → NoEnd dst
    → NoEnd src
    → length (bytes_of dst dst_behind) < word - 1
    → str_cat_n (bytes_of dst dst_behind) (bytes_of src behind) (length dst) ≡ none
unfolding str_cat_n
str_cat_n-overrun dst dst_behind src behind p q small = rw (str_len_lem dst dst_behind p) (
    rw (str_len_lem src behind q) (
      ap
        (λ o. (o >>= λ d. put_byte d limit 0) >>= λ tail.
          some (take (length dst) (bytes_of dst dst_behind) ++ tail, length dst + length src))
        (copy_bytes-none (drop (length dst) (bytes_of dst dst_behind)) (bytes_of src behind) limit
          (omega (arith, length-drop_le (length dst) (bytes_of dst dst_behind), wraps)))))
  where
    limit : ℕ
    limit =
        if leb (sub_word (length dst) (length dst)) (length src)
        then sub_word (sub_word (length dst) (length dst)) 1
        else length src

    wraps : limit ≡ word - 1
    wraps = ground arith
