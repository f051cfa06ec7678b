-- ===== src/Buddy/Bits.antt =====
-- `NX_FLS` of src/include/base/bitops.h and `BuddyFlsSizet` of src/mm/buddy_common.h.
use nxos.Base.{
  ℕ, zero, suc, ◌+◌, ◌-◌, ◌*◌, ◌/◌, ◌%◌, ◌≤◌, ◌<◌, ◌≡◌, ◌≢◌, refl, ap, sym, subst, ◌∙◌, Bool, true,
  false, ltb, ◌==◌, arith, if◌then◌else◌, dec_lt, ℕ_discrete,
}
use nxos.Buddy.{pow2, fls_step, fls, fls_size, order_of}
use nxos.Buddy.Cover.{pow2_pos, pow2_lt}
use native.Mathlib.Nat.{
  suc-mul, lt_of_mul-lt-mul_right, le_of_mul-le-mul_right, mul-le-mul_right, mul_assoc,
  mul-le-mul_left, div-add-mod, mod-lt,
}

pub pow2-add : (m n : ℕ) → pow2 (m + n) ≡ pow2 m * pow2 n
pow2-add zero n = ap pow2 {x = 0 + n} {y = n} (omega arith) ∙ omega arith
pow2-add (suc m) n =
    ap pow2 {x = suc m + n} {y = suc (m + n)} (omega arith) ∙ grind (arith, pow2-add m n)

-- A pair of `fls` for the number x: `x` shifted by some bits, at most `done`, and 32 less them.
record IsShifted (x done low : ℕ) (state : ℕ × ℕ) : Type 0 where
  by : ℕ
  shifted : state.0 ≡ x * pow2 by
  total : state.1 + by ≡ 32
  few : by ≤ done
  enough : low ≤ state.0
  below : state.0 < pow2 32

step-IsShifted :
    (x done low shift low' : ℕ) (state : ℕ × ℕ)
    → IsShifted x done low state
    → done + shift ≤ 31
    → low' ≤ low * pow2 shift
    → low' ≤ pow2 (32 - shift)
    → IsShifted x (done + shift) low' (fls_step shift state)
step-IsShifted x done low shift low' state ok fits small large =
    elim (dec_lt state.0 (pow2 (32 - shift))) [
      | yes lt ↦
          let b : ltb state.0 (pow2 (32 - shift)) ≡ true = ground (arith, lt) in
          subst (λ s. IsShifted x (done + shift) low' s)
            {x = (state.0 * pow2 shift, state.1 - shift)} (sym (rw b refl))
            (record {
              by = ok.by + shift;
              shifted =
                  ap (λ n. n * pow2 shift) ok.shifted
                  ∙ mul_assoc x (pow2 ok.by) (pow2 shift)
                  ∙ ap (λ n. x * n) (sym (pow2-add ok.by shift));
              total = omega (arith, ok.total, ok.few, fits);
              few = omega (arith, ok.few);
              enough = omega (arith, small, mul-le-mul_right (pow2 shift) ok.enough);
              below = room lt;
            })
      | no ge ↦
          let b : ltb state.0 (pow2 (32 - shift)) ≡ false = ground (arith, ge) in
          subst (λ s. IsShifted x (done + shift) low' s) {x = state} (sym (rw b refl))
            (record {
              by = ok.by;
              shifted = ok.shifted;
              total = ok.total;
              few = omega (arith, ok.few);
              enough = omega (arith, large, ge);
              below = ok.below;
            })
    ]
  where
    whole : pow2 (32 - shift) * pow2 shift ≡ pow2 32
    whole =
        sym (pow2-add (32 - shift) shift)
        ∙ ap pow2 {x = 32 - shift + shift} {y = 32} (omega (arith, fits))

    room : state.0 < pow2 (32 - shift) → state.0 * pow2 shift < pow2 32
    room lt = omega (
      arith,
      whole,
      mul-le-mul_right {m = suc state.0} {n = pow2 (32 - shift)} (pow2 shift) lt,
      pow2_pos shift,
      suc-mul state.0 (pow2 shift),
    )

-- A number of 32 bits that is not 0 has its highest bit at the place before `fls`.
pub fls-pow2 :
    (x : ℕ)
    → 0 < x
    → x < pow2 32
    → (n : ℕ) × (fls x ≡ suc n) × (pow2 n ≤ x) × (x < pow2 (suc n)) × (n < 32)
unfolding fls
fls-pow2 x pos lt =
    let s0 : IsShifted x 0 1 (x, 32) = record {
      by = 0;
      shifted = omega arith;
      total = omega arith;
      few = omega arith;
      enough = omega (arith, pos);
      below = lt;
    } in
    let s1 =
      step-IsShifted x 0 1 16 (pow2 16) (x, 32) s0 (omega arith) (omega arith) (omega arith) in
    let s2 =
      step-IsShifted x 16 (pow2 16) 8 (pow2 24) (fls_step 16 (x, 32)) s1 (omega arith) (omega arith)
        (omega arith) in
    let s3 =
      step-IsShifted x 24 (pow2 24) 4 (pow2 28) (fls_step 8 (fls_step 16 (x, 32))) s2 (omega arith)
        (omega arith) (omega arith) in
    let s4 =
      step-IsShifted x 28 (pow2 28) 2 (pow2 30) (fls_step 4 (fls_step 8 (fls_step 16 (x, 32)))) s3
        (omega arith) (omega arith) (omega arith) in
    let s5 =
      step-IsShifted x 30 (pow2 30) 1 (pow2 31)
        (fls_step 2 (fls_step 4 (fls_step 8 (fls_step 16 (x, 32))))) s4 (omega arith) (omega arith)
        (omega arith) in
    ends (fls_step 1 (fls_step 2 (fls_step 4 (fls_step 8 (fls_step 16 (x, 32)))))) s5
  where
    ends :
        (state : ℕ × ℕ)
        → IsShifted x 31 (pow2 31) state
        → (n : ℕ) × ((if x == 0 then 0 else state.1) ≡ suc n)
          × (pow2 n ≤ x)
          × (x < pow2 (suc n))
          × (n < 32)
    ends state s =
        let n : ℕ = 31 - s.by in
        let low : pow2 n * pow2 s.by ≡ pow2 31 =
          sym (pow2-add n s.by) ∙ ap pow2 {x = n + s.by} {y = 31} (omega (arith, s.few)) in
        let high : pow2 (suc n) * pow2 s.by ≡ pow2 32 =
          sym (pow2-add (suc n) s.by)
          ∙ ap pow2 {x = suc n + s.by} {y = 32} (omega (arith, s.few)) in
        let nonzero : (x == 0) ≡ false = ground (arith, pos) in
        let last : state.1 ≡ suc n = omega (arith, s.total, s.few) in
        (
          n,
          rw nonzero last,
          le_of_mul-le-mul_right (omega (arith, low, s.enough, s.shifted)) (pow2_pos s.by),
          lt_of_mul-lt-mul_right (pow2 s.by) (omega (arith, high, s.below, s.shifted)),
          omega arith,
        )

-- The highest bit of a number of 64 bits that is not 0.
pub record IsHighest (x k : ℕ) : Type 0 where
  pub low : pow2 k ≤ x
  pub high : x < pow2 (suc k)

highest_unique : (x a b : ℕ) → IsHighest x a → IsHighest x b → a ≡ b
highest_unique x a b m n = omega (
  arith,
  pow2_lt a (suc b) (omega (arith, m.low, n.high)),
  pow2_lt b (suc a) (omega (arith, n.low, m.high)),
)

pub fls_size-IsHighest : (x : ℕ) → 0 < x → x < pow2 64 → IsHighest x (fls_size x)
unfolding fls_size
fls_size-IsHighest x pos lt = elim (ℕ_discrete (x / pow2 32) 0) [
  | yes e ↦
      let whole : x % pow2 32 ≡ x = omega (arith, div-add-mod x (pow2 32), e) in
      let (n, is, lower, upper, few) =
        fls-pow2 x pos (omega (arith, whole, mod-lt x (pow2_pos 32))) in
      let b : (x / pow2 32 == 0) ≡ true = ap (λ y. y == 0) e in
      subst (λ y. IsHighest x y) {x = n}
        (sym (chosen true b ∙ ap (λ y. fls y - 1) whole ∙ ap (λ y. y - 1) is ∙ omega arith))
        (record { low = lower; high = upper })
  | no ne ↦
      let high_lt : x / pow2 32 < pow2 32 = omega (arith, lt, div-add-mod x (pow2 32)) in
      let (n, is, lower, upper, few) = fls-pow2 (x / pow2 32) (omega (arith, ne)) high_lt in
      let b : (x / pow2 32 == 0) ≡ false = nonzero (x / pow2 32) ne in
      subst (λ y. IsHighest x y) {x = 32 + n}
        (sym (chosen false b ∙ ap (λ y. 32 + (y - 1)) is ∙ omega arith))
        (record {
          low =
              omega
                (arith, pow2-add 32 n, mul-le-mul_left (pow2 32) lower, div-add-mod x (pow2 32));
          high = omega (
            arith,
            ap pow2 {x = suc (32 + n)} {y = 32 + suc n} (omega arith),
            pow2-add 32 (suc n),
            mul-le-mul_left {m = suc (x / pow2 32)} {n = pow2 (suc n)} (pow2 32) upper,
            div-add-mod x (pow2 32),
            mod-lt x (pow2_pos 32),
          );
        })
]
  where
    chosen :
        (c : Bool)
        → (x / pow2 32 == 0) ≡ c
        → fls_size x ≡ (if c then fls (x % pow2 32) - 1 else 32 + (fls (x / pow2 32) - 1))
    chosen c e = ap (λ d. if d then fls (x % pow2 32) - 1 else 32 + (fls (x / pow2 32) - 1)) e

    nonzero : (y : ℕ) → y ≢ 0 → (y == 0) ≡ false
    nonzero y ne = ground (arith, ne)

-- A count of pages that is not 0 and below 2 ^ 62: `order_of` is the least order whose blocks have as many
-- pages.
pub order_of-least :
    (count : ℕ)
    → 0 < count
    → count < pow2 62
    → (count ≤ pow2 (order_of count)) × ((k : ℕ) → count ≤ pow2 k → order_of count ≤ k)
unfolding order_of
order_of-least count pos lt =
    least (fls_size count) (fls_size-IsHighest count pos (omega (arith, lt)))
  where
    Least : ℕ → Type 0
    Least n = (count ≤ pow2 n) × ((k : ℕ) → count ≤ pow2 k → n ≤ k)

    least : (f : ℕ) → IsHighest count f → Least (fls_size (count + (pow2 f - 1)))
    least f top =
        let sum =
          fls_size-IsHighest (count + (pow2 f - 1)) (omega (arith, pos))
            (omega (arith, lt, top.low)) in
        elim (ℕ_discrete count (pow2 f)) [
          | yes e ↦
              let o : f ≡ fls_size (count + (pow2 f - 1)) =
                highest_unique (count + (pow2 f - 1)) f (fls_size (count + (pow2 f - 1)))
                  (record { low = omega (arith, e); high = omega (arith, e, pos) }) sum in
              subst Least o (
                omega (arith, e),
                λ k le. omega (arith, pow2_lt f (suc k) (omega (arith, e, le, pos))),
              )
          | no ne ↦
              let o : suc f ≡ fls_size (count + (pow2 f - 1)) =
                highest_unique (count + (pow2 f - 1)) (suc f) (fls_size (count + (pow2 f - 1)))
                  (record { low = omega (arith, ne, top.low); high = omega (arith, top.high) })
                  sum in
              subst Least o
                (omega (arith, top.high), λ k le. pow2_lt f k (omega (arith, ne, top.low, le)))
        ]
