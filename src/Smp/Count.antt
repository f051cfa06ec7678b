-- ===== src/Smp/Count.antt =====
-- What the operations of src/sched/smp.c do to the number of times that a thread is in the ready lists,
-- and to a property of the threads of each list.
use nxos.Base.{
  ℕ, zero, suc, ◌+◌, ◌<◌, ◌≡◌, refl, subst, inl, inr, Bool, true, false, Option, none, some, List,
  [], ◌∷◌, ◌++◌, arith, leb, ◌==◌, if◌then◌else◌, length, length-append, Bool-cases,
}
use nxos.Smp.{Thread, put_at, take_free, Found, pick_next, behind, free_next, pick_loop, free_loop}

abbrev pub is_tid : ℕ → Thread → ℕ
is_tid tid t = if t.tid == tid then 1 else 0

-- How often a thread is in a list, and in all lists of a core.
abbrev pub count : ℕ → List Thread → ℕ
count tid [] = 0
count tid (t ∷ ts) = is_tid tid t + count tid ts

abbrev pub count_all : ℕ → List (List Thread) → ℕ
count_all tid [] = 0
count_all tid (q ∷ qs) = count tid q + count_all tid qs

-- How many threads are in all lists.
abbrev pub size_all : List (List Thread) → ℕ
size_all [] = 0
size_all (q ∷ qs) = length q + size_all qs

pub count-append :
    (tid : ℕ) (ts us : List Thread) → count tid (ts ++ us) ≡ count tid ts + count tid us
count-append tid [] us = omega arith
count-append tid (t ∷ ts) us = ground (arith, count-append tid ts us)

pub put_at-count :
    (tid prio : ℕ) (head : Bool) (t : Thread) (qs : List (List Thread))
    → prio < length qs
    → (count_all tid (put_at prio head t qs) ≡ is_tid tid t + count_all tid qs)
      × (size_all (put_at prio head t qs) ≡ suc (size_all qs))
      × (length (put_at prio head t qs) ≡ length qs)
put_at-count tid prio head t [] lt = elim lt [ ]
put_at-count tid zero head t (q ∷ qs) lt =
    (ground (arith, count-append tid q (t ∷ [])), ground (arith, length-append q (t ∷ [])), refl)
put_at-count tid (suc prio) head t (q ∷ qs) lt =
    let rest = put_at-count tid prio head t qs (omega arith) in
    (omega (arith, rest.0), omega (arith, rest.1), omega (arith, rest.2))

-- A property of the threads of one list.
abbrev pub All : (Thread → Type 0) → List Thread → Type 0
All P [] = Unit {0}
All P (t ∷ ts) = P t × All P ts

-- A property of the threads of each list, which may depend on its number.
abbrev pub AllAt : (ℕ → Thread → Type 0) → ℕ → List (List Thread) → Type 0
AllAt P i [] = Unit {0}
AllAt P i (q ∷ qs) = All (P i) q × AllAt P (suc i) qs

-- One thread less, the one returned, which has the property.
pub record Less (qs : List (List Thread)) (t : Thread) (qs' : List (List Thread)) : Type 1 where
  pub counts : (tid : ℕ) → is_tid tid t + count_all tid qs' ≡ count_all tid qs
  pub sizes : suc (size_all qs') ≡ size_all qs
  pub lists : length qs' ≡ length qs
  pub keeps : (P : ℕ → Thread → Type 0) (i : ℕ) → AllAt P i qs → ((j : ℕ) × P j t) × AllAt P i qs'

abbrev pub Reduced : List (List Thread) → Found → Type 1
Reduced qs none = Unit {1}
Reduced qs (some (t, qs')) = Less qs t qs'

Less-below :
    (q : List Thread) {qs qs' : List (List Thread)} {t : Thread}
    → Less qs t qs'
    → Less (q ∷ qs) t (q ∷ qs')
Less-below q l = record {
  counts = λ tid. omega (arith, l.counts tid);
  sizes = omega (arith, l.sizes);
  lists = omega (arith, l.lists);
  keeps = λ P i all. let (found, rest) = l.keeps P (suc i) all.1 in (found, (all.0, rest));
}

pick_next-Reduced :
    (q : List Thread) (qs : List (List Thread)) (r : Found)
    → Reduced qs r
    → Reduced (q ∷ qs) (pick_next q qs r)
pick_next-Reduced q qs (some (t, qs')) l = Less-below q l
pick_next-Reduced [] qs none l = tt
pick_next-Reduced (t ∷ ts) qs none l = record {
  counts = λ tid. omega arith;
  sizes = omega arith;
  lists = refl;
  keeps = λ P i all. ((i, all.0.0), (all.0.1, all.1));
}

pub pick_loop-Reduced : (qs : List (List Thread)) → Reduced qs (pick_loop qs)
unfolding pick_loop
pick_loop-Reduced [] = tt
pick_loop-Reduced (q ∷ qs) = pick_next-Reduced q qs (pick_loop qs) (pick_loop-Reduced qs)

-- One list with one thread less.
abbrev LessOne : List Thread → Option (Thread × List Thread) → Type 1
LessOne q none = Unit {1}
LessOne q (some (t, q')) =
    ((tid : ℕ) → is_tid tid t + count tid q' ≡ count tid q)
    × (suc (length q') ≡ length q)
    × ((P : Thread → Type 0) → All P q → P t × All P q')

behind-LessOne :
    (t : Thread) (q : List Thread) (r : Option (Thread × List Thread))
    → LessOne q r
    → LessOne (t ∷ q) (behind t r)
behind-LessOne t q none l = tt
behind-LessOne t q (some (u, us)) (counts, sizes, keeps) = (
  λ tid. omega (arith, counts tid),
  omega (arith, sizes),
  λ P all. let (found, rest) = keeps P all.1 in (found, (all.0, rest)),
)

take_free-LessOne : (cores : ℕ) (q : List Thread) → LessOne q (take_free cores q)
take_free-LessOne cores [] = tt
take_free-LessOne cores (t ∷ ts) = elim (Bool-cases (leb cores t.core_affinity)) [
  | inl e ↦ rw e (λ tid. refl, refl, λ P all. (all.0, all.1))
  | inr e ↦ rw e (behind-LessOne t ts (take_free cores ts) (take_free-LessOne cores ts))
]

free_next-Reduced :
    (q : List Thread) (qs : List (List Thread)) (own : Option (Thread × List Thread)) (r : Found)
    → LessOne q own
    → Reduced qs r
    → Reduced (q ∷ qs) (free_next q qs own r)
free_next-Reduced q qs own (some (t, qs')) one l = Less-below q l
free_next-Reduced q qs none none one l = tt
free_next-Reduced q qs (some (t, q')) none (counts, sizes, keeps) l = record {
  counts = λ tid. omega (arith, counts tid);
  sizes = omega (arith, sizes);
  lists = refl;
  keeps = λ P i all. let (found, rest) = keeps (P i) all.0 in ((i, found), (rest, all.1));
}

pub free_loop-Reduced : (cores : ℕ) (qs : List (List Thread)) → Reduced qs (free_loop cores qs)
unfolding free_loop
free_loop-Reduced cores [] = tt
free_loop-Reduced cores (q ∷ qs) =
    free_next-Reduced q qs (take_free cores q) (free_loop cores qs) (take_free-LessOne cores q)
      (free_loop-Reduced cores qs)

All-append :
    (P : Thread → Type 0) (q : List Thread) (t : Thread) → All P q → P t → All P (q ++ t ∷ [])
All-append P [] t all p = (p, tt)
All-append P (u ∷ us) t all p = (all.0, All-append P us t all.1 p)

put-All :
    (P : Thread → Type 0) (head : Bool) (q : List Thread) (t : Thread)
    → All P q
    → P t
    → All P (if head then t ∷ q else q ++ t ∷ [])
put-All P true q t all p = (p, all)
put-All P false q t all p = All-append P q t all p

pub put_at-AllAt :
    (P : ℕ → Thread → Type 0) (i prio : ℕ) (head : Bool) (t : Thread) (qs : List (List Thread))
    → AllAt P i qs
    → P (i + prio) t
    → AllAt P i (put_at prio head t qs)
put_at-AllAt P i prio head t [] all p = tt
put_at-AllAt P i zero head t (q ∷ qs) all p =
    (put-All (P i) head q t all.0 (subst (λ j. P j t) (omega arith) p), all.1)
put_at-AllAt P i (suc prio) head t (q ∷ qs) all p =
    (all.0, put_at-AllAt P (suc i) prio head t qs all.1 (subst (λ j. P j t) (omega arith) p))
