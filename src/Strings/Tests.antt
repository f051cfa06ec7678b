-- ===== src/Strings/Tests.antt =====
-- Small strings through src/utils/string.c.
use nxos.Base.{ℕ, ◌≡◌, ◌++◌, ◌-◌, refl, some, List, [], ◌∷◌, arith, ltb, if◌then◌else◌, word}
use nxos.Strings.{Any, no_digits, digits_loop, str_to_ul, skip_spaces}
use nxos.Strings.Numbers.{value_from, digits_loop-value}

abbrev cat : List ℕ
cat = 99 ∷ 97 ∷ 116 ∷ []

abbrev target : List ℕ
target = 1 ∷ 2 ∷ 3 ∷ 4 ∷ []

digits_loop-value_example :
    (any : Any) × (digits_loop 10 ((52 ∷ 50 ∷ []) ++ 32 ∷ []) (0, no_digits)
      ≡ some (record {
        acc =
            if ltb (value_from 10 0 (4 ∷ 2 ∷ [])) word
            then value_from 10 0 (4 ∷ 2 ∷ [])
            else word - 1;
        any = any;
        rest = 32 ∷ [];
      }))
digits_loop-value_example =
    digits_loop-value 10 (52 ∷ 50 ∷ []) (4 ∷ 2 ∷ []) [] 32 (omega arith)
      ((refl, omega arith, (refl, omega arith, tt))) refl

-- " -0x1Fz" has the value -31, and the rest begins at the z.
minus_hex :
    str_to_ul (32 ∷ 45 ∷ 48 ∷ 120 ∷ 49 ∷ 70 ∷ 122 ∷ 0 ∷ []) 0 ≡ some (word - 31, 122 ∷ 0 ∷ [])
unfolding str_to_ul digits_loop skip_spaces
minus_hex = refl
