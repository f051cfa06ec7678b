-- ===== src/Memory/Moves.antt =====
-- What the loops of src/utils/memory.c leave in memory.
use nxos.Base.{
  ℕ, zero, suc, ◌+◌, ◌-◌, ◌≤◌, ◌<◌, ◌≡◌, refl, ap, ◌∙◌, sym, ◌↔◌, inl, inr, none, leb, ltb, ◌&&◌,
  if◌then◌else◌, arith, Bool-cases, ℕ_discrete, dec_lt,
}
use nxos.Memory.{Memory, write, mem_set, mem_copy, copy_down, mem_move, compare_n}

-- What memory holds once `n` bytes from `src` have been put at `dst`.
abbrev pub moved : Memory → (dst src n a : ℕ) → ℕ
moved m dst src n a = if leb dst a && ltb a (dst + n) then m (src + (a - dst)) else m a

up_step :
    (m : Memory) (dst src n a : ℕ)
    → dst ≤ src
    → moved (write m dst (m src)) (dst + 1) (src + 1) n a ≡ moved m dst src (suc n) a
up_step m dst src n a h = elim (ℕ_discrete a dst) [
  | yes e ↦ ground (arith, ap m {x = src + (a - dst)} {y = src} (omega arith))
  | no ne ↦ elim (dec_lt a dst) [
    | yes lt ↦ ground arith
    | no ge ↦
        ground (arith, ap m {x = src + 1 + (a - (dst + 1))} {y = src + (a - dst)} (omega arith))
  ]
]

down_step :
    (m : Memory) (dst src n a : ℕ)
    → src < dst
    → moved (write m (dst + n) (m (src + n))) dst src n a ≡ moved m dst src (suc n) a
down_step m dst src n a h = elim (ℕ_discrete a (dst + n)) [
  | yes e ↦ ground (arith, ap m {x = src + (a - dst)} {y = src + n} (omega arith))
  | no ne ↦ ground arith
]

mem_copy-moved :
    (m : Memory) (dst src n a : ℕ) → dst ≤ src → mem_copy m dst src n a ≡ moved m dst src n a
unfolding mem_copy
mem_copy-moved m dst src zero a h = ground arith
mem_copy-moved m dst src (suc n) a h =
    mem_copy-moved (write m dst (m src)) (dst + 1) (src + 1) n a (omega arith)
    ∙ up_step m dst src n a h

copy_down-moved :
    (m : Memory) (dst src n a : ℕ) → src < dst → copy_down m dst src n a ≡ moved m dst src n a
unfolding copy_down
copy_down-moved m dst src zero a h = ground arith
copy_down-moved m dst src (suc n) a h =
    copy_down-moved (write m (dst + n) (m (src + n))) dst src n a h ∙ down_step m dst src n a h

-- `NX_MemMove` leaves at each address of the `n` from `dst` on the byte that was at the matching address
-- from `src` on, and every other byte as it was, however the two areas overlap.
pub mem_move-moved : (m : Memory) (dst src n a : ℕ) → mem_move m dst src n a ≡ moved m dst src n a
unfolding mem_move
mem_move-moved m dst src n a = elim (Bool-cases (leb dst src)) [
  | inl e ↦ rw e (mem_copy-moved m dst src n a (ground arith))
  | inr e ↦ rw e (copy_down-moved m dst src n a (ground arith))
]

-- `NX_MemSet` writes the value at the `sz` addresses from `dst` on and at no other one.
pub mem_set_lem :
    (m : Memory) (dst value sz a : ℕ)
    → mem_set m dst value sz a ≡ (if leb dst a && ltb a (dst + sz) then value else m a)
unfolding mem_set
mem_set_lem m dst value zero a = ground arith
mem_set_lem m dst value (suc sz) a =
    ground (arith, mem_set_lem (write m dst value) (dst + 1) value sz a)

-- `NX_CompareN` finds no difference exactly when the areas hold the same bytes.
pub compare_n-none :
    (m : Memory) (s1 s2 n : ℕ)
    → (compare_n m s1 s2 n ≡ none) ↔ ((i : ℕ) → i < n → m (s1 + i) ≡ m (s2 + i))
unfolding compare_n
compare_n-none m s1 s2 zero = (λ e i lt. absurd (omega arith), λ f. refl)
compare_n-none m s1 s2 (suc n) = elim (ℕ_discrete (m s1) (m s2)) [
  | no ne ↦ (
    λ e. absurd (ground (arith, e, ne)),
    λ f. absurd (ne (zero_at s1 ∙ f 0 (omega arith) ∙ sym (zero_at s2))),
  )
  | yes e ↦
      let (to, from) = compare_n-none m (s1 + 1) (s2 + 1) n in
      (λ h. all e (to (ground (arith, h, e))), λ f. ground (arith, e, from (rest f)))
]
  where
    zero_at : (s : ℕ) → m s ≡ m (s + 0)
    zero_at s = ap m (omega arith)

    all :
        m s1 ≡ m s2
        → ((i : ℕ) → i < n → m (s1 + 1 + i) ≡ m (s2 + 1 + i))
        → (i : ℕ) → i < suc n
        → m (s1 + i) ≡ m (s2 + i)
    all e f zero lt = sym (zero_at s1) ∙ e ∙ zero_at s2
    all e f (suc i) lt =
        ap m {x = s1 + suc i} {y = s1 + 1 + i} (omega arith)
        ∙ f i (omega arith)
        ∙ ap m {x = s2 + 1 + i} {y = s2 + suc i} (omega arith)

    rest :
        ((i : ℕ) → i < suc n → m (s1 + i) ≡ m (s2 + i))
        → (i : ℕ) → i < n
        → m (s1 + 1 + i) ≡ m (s2 + 1 + i)
    rest f i lt =
        ap m {x = s1 + 1 + i} {y = s1 + suc i} (omega arith)
        ∙ f (suc i) (omega arith)
        ∙ ap m {x = s2 + suc i} {y = s2 + 1 + i} (omega arith)
