-- ===== src/ThreadId/Alloc.antt =====
-- What src/sched/thread_id.c promises of the numbers that it hands out and takes back.
use nxos.Base.{
  ℕ, zero, suc, ◌+◌, ◌-◌, ◌≤◌, ◌<◌, ◌≡◌, ◌≢◌, sym, ◌∙◌, ◌⊎◌, inl, inr, Bool, true, false, ◌&&◌,
  ◌||◌, Option, none, some, List, arith, leb, ltb, if◌then◌else◌, Option-cases, length, set,
  ℕ_discrete, get_elem?-set_self, get_elem?-set_ne, length-set, next, next_lem,
}
use nxos.ThreadId.{ThreadIds, is_used, scan, alloc, free}

-- The numbers that the loop has still to look at when it stands at `id`.
abbrev Ahead : (start id j : ℕ) → Type 0
Ahead start id j =
    (if leb start id then leb id j || ltb j start else leb id j && ltb j start) ≡ true

abbrev rounds : (max start id : ℕ) → ℕ
rounds max start id = if leb start id then max - id + start else start - id

-- What the loop returns is a free number.
scan-some :
    (fuel max start : ℕ) (maps : List Bool) (id found : ℕ)
    → id < max
    → scan fuel max start maps id ≡ some found
    → (found < max) × (is_used maps found ≡ false)
unfolding scan
scan-some zero max start maps id found h e = absurd (ground arith)
scan-some (suc fuel) max start maps id found h e =
    ground
      (arith, scan-some fuel max start maps (next max id) found (ground (arith, next_lem max id h)))

-- With fuel for every number that is left, the loop gives up only when all of those are in use.
scan-none :
    (fuel max start : ℕ) (maps : List Bool) (id j : ℕ)
    → id < max
    → start < max
    → rounds max start id ≤ fuel
    → scan fuel max start maps id ≡ none
    → j < max
    → Ahead start id j
    → is_used maps j ≡ true
unfolding scan
scan-none zero max start maps id j h hs few e lt ahead = absurd (ground arith)
scan-none (suc fuel) max start maps id j h hs few e lt ahead = elim (ℕ_discrete id j) [
  | yes same ↦ rw (← same) (ground arith)
  | no other ↦ ground (arith, scan-none fuel max start maps (next max id) j, next_lem max id h)
]

-- The next number to try is a number of the table, and the table has more than one.
pub record IsValid (t : ThreadIds) : Type 0 where
  pub in_range : t.next_id < length t.maps
  pub several : 1 < length t.maps

-- A number was free, is in use now, and no other number changed.
pub record Taken (t : ThreadIds) (id : ℕ) (t' : ThreadIds) : Type 0 where
  pub in_range : id < length t.maps
  pub was_free : is_used t.maps id ≡ false
  pub now_used : is_used t'.maps id ≡ true
  pub others : (j : ℕ) → id ≢ j → is_used t'.maps j ≡ is_used t.maps j
  pub same_count : length t'.maps ≡ length t.maps
  pub valid : IsValid t'

alloc_found :
    (t : ThreadIds) (id : ℕ)
    → IsValid t
    → scan (length t.maps) (length t.maps) t.next_id t.maps t.next_id ≡ some id
    → Taken t id (record { maps = set t.maps id true; next_id = next (length t.maps) id })
alloc_found t id v e =
    let (lt, free_id) =
      scan-some (length t.maps) (length t.maps) t.next_id t.maps t.next_id id v.in_range e in
    record {
      in_range = lt;
      was_free = free_id;
      now_used = ground (arith, get_elem?-set_self t.maps id true lt);
      others = λ j ne. ground (arith, get_elem?-set_ne t.maps id j true ne);
      same_count = length-set t.maps id true;
      valid = record {
        in_range = ground (arith, length-set t.maps id true, next_lem (length t.maps) id lt);
        several = ground (arith, length-set t.maps id true, v.several);
      };
    }

-- `NX_ThreadIdAlloc` in a valid table either hands out a number that was free, which is in use from
-- then on while no other number changed, or answers -1, and then every number is in use and the
-- table is as it was. In both cases the table stays valid.
pub alloc_lem :
    (t : ThreadIds)
    → IsValid t
    → ((id : ℕ) × (t' : ThreadIds) × (alloc t ≡ (t', some id)) × Taken t id t')
      ⊎ ((alloc t ≡ (t, none)) × ((j : ℕ) → j < length t.maps → is_used t.maps j ≡ true))
unfolding alloc
alloc_lem t v =
    elim (Option-cases (scan (length t.maps) (length t.maps) t.next_id t.maps t.next_id)) [
      | inl e ↦ inr (
        ground (arith, e),
        λ j lt.
            scan-none (length t.maps) (length t.maps) t.next_id t.maps t.next_id j v.in_range
              v.in_range (ground (arith, v.in_range)) e lt (ground arith),
      )
      | inr (id, e) ↦
          let took = alloc_found t id v e in
          inl (
            id,
            record { maps = set t.maps id true; next_id = next (length t.maps) id },
            ground (arith, e, next_lem (length t.maps) id took.in_range, v.several),
            took,
          )
    ]

some_pair-injective :
    (t t' : ThreadIds) (i i' : ℕ)
    → ◌≡◌ {A = ThreadIds × Option ℕ} (t, some i) (t', some i')
    → (t ≡ t') × (i ≡ i')
some_pair-injective t t' i i' h = ground arith

alloc-Taken : (t t' : ThreadIds) (id : ℕ) → IsValid t → alloc t ≡ (t', some id) → Taken t id t'
alloc-Taken t t' id v e = elim (alloc_lem t v) [
  | inl (i, u, e', took) ↦
      let (same_table, same_id) = some_pair-injective u t' i id (sym e' ∙ e) in
      rw (← same_table, ← same_id) took
  | inr (e', _) ↦ absurd (ground (arith, e'))
]

-- A number that `NX_ThreadIdAlloc` handed out can be given back with `NX_ThreadIdFree`, which asserts
-- nothing false and makes the set of used numbers what it was before the two calls.
pub free-alloc :
    (t t' : ThreadIds) (id : ℕ)
    → IsValid t
    → alloc t ≡ (t', some id)
    → (t'' : ThreadIds) × (free t' id ≡ some t'')
      × IsValid t''
      × ((j : ℕ) → is_used t''.maps j ≡ is_used t.maps j)
unfolding free
free-alloc t t' id v e = (
  record t' { maps = set t'.maps id false },
  ground (arith, took.in_range, took.same_count, took.now_used),
  record {
    in_range = ground (arith, length-set t'.maps id false, took.valid);
    several = ground (arith, length-set t'.maps id false, took.valid);
  },
  λ j. elim (ℕ_discrete id j) [
    | yes same ↦ rw (← same) (
        ground (
          arith,
          get_elem?-set_self t'.maps id false (omega (arith, took.in_range, took.same_count)),
          took.was_free,
        ))
    | no other ↦ ground (arith, get_elem?-set_ne t'.maps id j false other, took.others j other)
  ],
)
  where
    took : Taken t id t'
    took = alloc-Taken t t' id v e

-- Two calls of `NX_ThreadIdAlloc` with nothing given back in between hand out different numbers.
pub alloc-alloc :
    (t t' t'' : ThreadIds) (id id' : ℕ)
    → IsValid t
    → alloc t ≡ (t', some id)
    → alloc t' ≡ (t'', some id')
    → id ≢ id'
alloc-alloc t t' t'' id id' v e e' same =
    let first = alloc-Taken t t' id v e in
    let second = alloc-Taken t' t'' id' first.valid e' in
    ground (arith, first.now_used, second.was_free)
