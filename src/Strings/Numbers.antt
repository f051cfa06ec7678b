-- ===== src/Strings/Numbers.antt =====
-- The loop of `NX_StrToUL` of src/utils/string.c against the value of the digits.
use nxos.Base.{
  ℕ, ◌+◌, ◌-◌, ◌*◌, ◌/◌, ◌%◌, ◌≤◌, ◌<◌, ◌≡◌, refl, ap, subst, ◌∙◌, inl, inr, true, false, ◌&&◌,
  ◌||◌, none, some, List, [], ◌∷◌, ◌++◌, arith, ltb, ◌==◌, if◌then◌else◌, word, Bool-cases, dec_lt,
}
use nxos.Strings.{Any, no_digits, digits, overflow, digit_of, add_digit, digits_loop}
use native.Mathlib.Nat.{mul-le-mul_left, div-add-mod, mod-lt, mod-eq_of_lt}

-- The value of digits, as a number without a bound.
abbrev pub value_from : (base : ℕ) → ℕ → List ℕ → ℕ
value_from base v [] = v
value_from base v (d ∷ ds) = value_from base (v * base + d) ds

-- The characters stand for the digits.
abbrev pub AreDigits : (base : ℕ) → List ℕ → List ℕ → Type 0
AreDigits base [] [] = Unit {0}
AreDigits base (c ∷ cs) (d ∷ ds) = (digit_of base c ≡ some d) × (d < base) × AreDigits base cs ds
AreDigits base _ _ = ⊥

-- The accumulator after the digits of value `v`.
abbrev Accumulates : ℕ → ℕ × Any → Type 0
Accumulates v (acc, overflow) = (word ≤ v) × (acc ≡ word - 1)
Accumulates v (acc, _) = (v < word) × (acc ≡ v)

-- The test of the code before it adds a digit is exact.
fits :
    (base acc d : ℕ)
    → 0 < base
    → d < base
    → acc < word
    → ltb ((word - 1) / base) acc || acc == (word - 1) / base && ltb ((word - 1) % base) d ≡ false
    → acc * base + d < word
fits base acc d pos lt small h = elim (dec_lt acc ((word - 1) / base)) [
  | yes below ↦ omega (
    arith,
    mul-le-mul_left {m = acc + 1} {n = (word - 1) / base} base (omega arith),
    div-add-mod (word - 1) base,
  )
  | no above ↦
      let same : acc ≡ (word - 1) / base = ground (arith, h) in
      let room : d ≤ (word - 1) % base = ground (arith, h, same) in
      omega (arith, ap (λ x. base * x) same, div-add-mod (word - 1) base, room)
]

not_fits :
    (base acc d : ℕ)
    → 0 < base
    → ltb ((word - 1) / base) acc || acc == (word - 1) / base && ltb ((word - 1) % base) d ≡ true
    → word ≤ acc * base + d
not_fits base acc d pos h = elim (dec_lt ((word - 1) / base) acc) [
  | yes above ↦ omega (
    arith,
    mul-le-mul_left {m = (word - 1) / base + 1} {n = acc} base (omega arith),
    div-add-mod (word - 1) base,
    mod-lt (word - 1) pos,
  )
  | no below ↦
      let same : acc ≡ (word - 1) / base = ground (arith, h) in
      let no_room : (word - 1) % base < d = ground (arith, h, same) in
      omega (arith, ap (λ x. base * x) same, div-add-mod (word - 1) base, no_room)
]

added :
    (base v d acc : ℕ)
    → 0 < base
    → d < base
    → v < word
    → acc ≡ v
    → Accumulates (v * base + d) (
        if ltb ((word - 1) / base) acc || acc == (word - 1) / base && ltb ((word - 1) % base) d
        then (word - 1, overflow)
        else ((acc * base % word + d) % word, digits))
added base v d acc pos lt small same =
    elim (Bool-cases
      (ltb ((word - 1) / base) acc || acc == (word - 1) / base && ltb ((word - 1) % base) d)) [
        | inl e ↦ rw e (subst (λ x. word ≤ x * base + d) same (not_fits base acc d pos e), refl)
        | inr e ↦
            let room = fits base acc d pos lt (omega arith) e in
            rw e (
              subst (λ x. x * base + d < word) same room,
              ap (λ x. (x + d) % word)
                    (mod-eq_of_lt {n = acc * base} {m = word} (omega (arith, room)))
                  ∙ mod-eq_of_lt room
                  ∙ ap (λ x. x * base + d) same,
            )
      ]

add_digit-Accumulates :
    (base v d : ℕ) (now : ℕ × Any)
    → 0 < base
    → d < base
    → Accumulates v now
    → Accumulates (v * base + d) (add_digit base now.0 now.1 d)
add_digit-Accumulates base v d (acc, overflow) pos lt (big, full) =
    (omega (arith, mul-le-mul_left {m = 1} {n = base} v (omega arith)), full)
add_digit-Accumulates base v d (acc, no_digits) pos lt (small, same) =
    added base v d acc pos lt small same
add_digit-Accumulates base v d (acc, digits) pos lt (small, same) =
    added base v d acc pos lt small same

digits_loop-Accumulates :
    (base : ℕ) (cs ds tail : List ℕ) (stop v : ℕ) (now : ℕ × Any)
    → 0 < base
    → AreDigits base cs ds
    → digit_of base stop ≡ none
    → Accumulates v now
    → (r : ℕ × Any) × (digits_loop base (cs ++ stop ∷ tail) now
        ≡ some (record { acc = r.0; any = r.1; rest = stop ∷ tail }))
      × Accumulates (value_from base v ds) r
unfolding digits_loop
digits_loop-Accumulates base [] [] tail stop v now pos are ends inv =
    (now, ground (arith, ends), inv)
digits_loop-Accumulates base [] (d ∷ ds) tail stop v now pos are ends inv = absurd are
digits_loop-Accumulates base (c ∷ cs) [] tail stop v now pos are ends inv = absurd are
digits_loop-Accumulates base (c ∷ cs) (d ∷ ds) tail stop v now pos (is, lt, are) ends inv =
    let (r, did, k) =
      digits_loop-Accumulates base cs ds tail stop (v * base + d) (add_digit base now.0 now.1 d) pos
        are ends (add_digit-Accumulates base v d now pos lt inv) in
    (r, ground (arith, is, did), k)

-- The loop of `NX_StrToUL` on the characters of digits of a base and then any other character stops at
-- that character, for every number of digits: it yields the value of the digits, and the largest
-- unsigned number when that value is larger.
pub digits_loop-value :
    (base : ℕ) (cs ds tail : List ℕ) (stop : ℕ)
    → 0 < base
    → AreDigits base cs ds
    → digit_of base stop ≡ none
    → (any : Any) × (digits_loop base (cs ++ stop ∷ tail) (0, no_digits)
        ≡ some (record {
          acc = if ltb (value_from base 0 ds) word then value_from base 0 ds else word - 1;
          any = any;
          rest = stop ∷ tail;
        }))
digits_loop-value base cs ds tail stop pos are ends =
    let ((acc, any), did, k) =
      digits_loop-Accumulates base cs ds tail stop 0 (0, no_digits) pos are ends
        (omega arith, refl) in
    (
      any,
      did
          ∙ ap (λ a. some (record { acc = a; any = any; rest = stop ∷ tail }))
              (clamped acc any (value_from base 0 ds) k),
    )
  where
    clamped :
        (acc : ℕ) (any : Any) (v : ℕ)
        → Accumulates v (acc, any)
        → acc ≡ (if ltb v word then v else word - 1)
    clamped acc overflow v (big, full) = ground arith
    clamped acc no_digits v (small, same) = ground arith
    clamped acc digits v (small, same) = ground arith
