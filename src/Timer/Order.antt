-- ===== src/Timer/Order.antt =====
-- The order of the timer list of src/time/timer.c.
use nxos.Base.{
  ℕ, ◌+◌, ◌≤◌, ◌<◌, ◌^◌, ◌≡◌, refl, subst, ap, false, none, some, List, [], ◌∷◌, ◌++◌, arith,
  dec_lt, dec_le, eok,
}
use nxos.Timer.{waiting, Timer, Timers, on_list, insert_behind, insert, start}

-- No timer is due before `lo`, and none after one that stands behind it.
abbrev pub Sorted : ℕ → List Timer → Type 0
Sorted lo [] = Unit {0}
Sorted lo (x ∷ xs) = (lo ≤ x.timeout) × Sorted x.timeout xs

-- The next timeout is that of the first timer.
abbrev pub IsNext : ℕ → List Timer → Type 0
IsNext next [] = Unit {0}
IsNext next (x ∷ xs) = next ≡ x.timeout

pub record IsValid (s : Timers) : Type 0 where
  pub sorted : Sorted 0 s.list
  pub next_right : IsNext s.next_timeout s.list

-- The list with one more timer.
abbrev pub Inserted : List Timer → Timer → List Timer → Type 0
Inserted xs t ys =
    (before : List Timer) × (after : List Timer) × (xs ≡ before ++ after)
    × (ys ≡ before ++ t ∷ after)

Sorted-mono : (lo hi : ℕ) (xs : List Timer) → lo ≤ hi → Sorted hi xs → Sorted lo xs
Sorted-mono lo hi [] le o = tt
Sorted-mono lo hi (x ∷ xs) le o = (omega arith, o.1)

insert_behind-later :
    (lo : ℕ) (t : Timer) (xs : List Timer)
    → Sorted lo xs
    → t.timeout < lo
    → insert_behind t xs ≡ none
unfolding insert_behind
insert_behind-later lo t [] o lt = refl
insert_behind-later lo t (x ∷ xs) o lt = ground (arith, insert_behind-later x.timeout t xs o.1)

-- Behind a timer that is due no later the loop finds the place.
insert_behind-Inserted :
    (lo : ℕ) (t x : Timer) (xs : List Timer)
    → Sorted lo (x ∷ xs)
    → x.timeout ≤ t.timeout
    → (ys : List Timer) × (insert_behind t (x ∷ xs) ≡ some (x ∷ ys))
      × Sorted lo (x ∷ ys)
      × Inserted (x ∷ xs) t (x ∷ ys)
unfolding insert_behind
insert_behind-Inserted lo t x [] o le =
    (t ∷ [], ground arith, (o.0, (le, tt)), (x ∷ [], [], refl, refl))
insert_behind-Inserted lo t x (y ∷ zs) o le = elim (dec_le y.timeout t.timeout) [
  | yes le' ↦
      let (ys, found, sorted, (before, after, e, e')) =
        insert_behind-Inserted x.timeout t y zs o.1 le' in
      (
        y ∷ ys,
        ground (arith, found),
        (o.0, sorted),
        (x ∷ before, after, ap (λ l. x ∷ l) e, ap (λ l. x ∷ l) e'),
      )
  | no gt ↦ (
    t ∷ y ∷ zs,
    ground (arith, insert_behind-later y.timeout t zs o.1.1),
    (o.0, (le, (omega arith, o.1.1))),
    (x ∷ [], y ∷ zs, refl, refl),
  )
]

insert_lem :
    (s : Timers) (t : Timer)
    → IsValid s
    → IsValid (insert s t) × Inserted s.list t (insert s t).list
unfolding insert
insert_lem s t v = insert_into s.list s.next_timeout v.sorted v.next_right
  where
    insert_into :
        (list : List Timer) (next : ℕ)
        → Sorted 0 list
        → IsNext next list
        → IsValid (insert (record s { list = list; next_timeout = next }) t)
          × Inserted list t (insert (record s { list = list; next_timeout = next }) t).list
    insert_into [] next o right =
        (record { sorted = (omega arith, tt); next_right = refl }, ([], [], refl, refl))
    insert_into (x ∷ xs) next o right = elim (dec_lt t.timeout x.timeout) [
      | yes lt ↦
          let s' = record s { list = t ∷ x ∷ xs; next_timeout = t.timeout } in
          subst (λ r. IsValid r × Inserted (x ∷ xs) t r.list) {x = s'} (ground arith)
            (
              record { sorted = (omega arith, (omega arith, o.1)); next_right = refl },
              ([], x ∷ xs, refl, refl),
            )
      | no ge ↦
          let (ys, found, sorted, placed) = insert_behind-Inserted 0 t x xs o (omega arith) in
          subst (λ r. IsValid r × Inserted (x ∷ xs) t r.list)
            {x = record s { list = x ∷ ys; next_timeout = next }} (ground (arith, found))
            (record { sorted = sorted; next_right = right }, placed)
    ]

-- `NX_TimerStart` of a timer that is not on the list of valid timers, and whose timeout is not too
-- far for the counter, answers NX_EOK, and puts it on the list with its timeout from now on, where
-- the list stays in the order of the timeouts and the next timeout that of its first timer.
pub start_lem :
    (max_ticks : ℕ) (s : Timers) (t : Timer)
    → IsValid s
    → max_ticks < 2 ^ 64
    → t.time_ticks + s.ticks ≤ max_ticks
    → on_list t.name s.list ≡ false
    → (s' : Timers) × (t' : Timer) × (t'
        ≡ record t { timeout = t.time_ticks + s.ticks; state = waiting })
      × (start max_ticks s (some t) ≡ (s', some t', eok))
      × IsValid s'
      × Inserted s.list t' s'.list
unfolding start
start_lem max_ticks s t v small fits fresh =
    (insert s t', t', refl, ground (arith, fits), (insert_lem s t' v).0, (insert_lem s t' v).1)
  where
    t' : Timer
    t' = record t { timeout = t.time_ticks + s.ticks; state = waiting }
