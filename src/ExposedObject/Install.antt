-- ===== src/ExposedObject/Install.antt =====
-- What installing, locating and copying an entry does to the table of src/kernel/exobj.c.
use nxos.Base.{
  ℕ, ◌≤◌, ℕ_discrete, dec_lt, sym, ◌∙◌, ap, ◌<◌, ◌≡◌, refl, ◌≢◌, ◌⊎◌, inl, inr, true, Option, none,
  some, List, arith, ◌==◌, Option-cases, length, get_elem?, set, find_index, find_index-some,
  find_index-first, find_index-none, get_elem?-lt, get_elem?-set_self, get_elem?-set_ne,
  get_elem?-total, length-set, eok, efault, enores, Error,
}
use nxos.ExposedObject.{
  ObjectType, type_code, ExposedObject, Table, table_of, alloc, is_entry, install_in, install,
  get_object, locate, copy,
}

-- Entry `new` stands at `solt`, where the first free slot of `xs` was, and nothing else changed.
pub record Installed (xs : List ExposedObject) (new : ExposedObject) (ys : List ExposedObject)
    (solt : ℕ) : Type 0 where
  pub placed : get_elem? ys solt ≡ some new
  pub was_free : (o : ExposedObject) → get_elem? xs solt ≡ some o → o.object ≡ 0
  pub first : (j : ℕ) (o : ExposedObject) → j < solt → get_elem? xs j ≡ some o → o.object ≢ 0
  pub others : (j : ℕ) → solt ≢ j → get_elem? ys j ≡ get_elem? xs j
  pub same_count : length ys ≡ length xs

-- No slot is free.
abbrev pub IsFull : List ExposedObject → Type 0
IsFull xs = (j : ℕ) (o : ExposedObject) → get_elem? xs j ≡ some o → o.object ≢ 0

alloc-Installed :
    (xs : List ExposedObject) (new : ExposedObject) (i : ℕ)
    → alloc xs ≡ some i
    → Installed xs new (set xs i new) i
unfolding alloc
alloc-Installed xs new i h =
    let (old, at_i, free) = find_index-some (λ o. o.object == 0) xs i h in
    record {
      placed = get_elem?-set_self xs i new (get_elem?-lt xs i at_i);
      was_free = λ o e. ground arith;
      first = λ j o lt e. ground (arith, find_index-first (λ o. o.object == 0) xs i j h lt e);
      others = λ j ne. get_elem?-set_ne xs i j new ne;
      same_count = length-set xs i new;
    }

abbrev pub entry : ℕ → ObjectType → ℕ → ExposedObject
entry object kind handler = record { object = object; kind = kind; close = handler }

-- `NX_ExposedObjectInstall` on a table with storage either finds every slot in use, answers
-- NX_ENORES and leaves the table as it was, or answers NX_EOK, hands out the first free slot, and
-- changes that slot alone.
pub install_lem :
    (xs : List ExposedObject) (object : ℕ) (kind : ObjectType) (handler : ℕ)
    → (IsFull xs
        × (install (some (table_of xs)) object kind handler ≡ (some (table_of xs), enores, none)))
      ⊎ ((ys : List ExposedObject) × (solt : ℕ) × Installed xs (entry object kind handler) ys solt
          × (install (some (table_of xs)) object kind handler
              ≡ (some (table_of ys), eok, some solt)))
unfolding install
install_lem xs object kind handler = elim (Option-cases (alloc xs)) [
  | inl e ↦ inl (
    unfold alloc in λ j o at_j. ground (arith, find_index-none (λ o. o.object == 0) xs j e at_j),
    rw (e, install_in),
  )
  | inr (i, e) ↦
      inr (set xs i (entry object kind handler), i, alloc-Installed xs _ i e, rw (e, install_in))
]

code-injective : (a b : ObjectType) → type_code a ≡ type_code b → a ≡ b
code-injective a b h = ground arith

-- `xs` has the object with this type at `solt`.
abbrev pub HasAt : List ExposedObject → ℕ → ObjectType → ℕ → Type 0
HasAt xs object kind solt =
    (o : ExposedObject) × (get_elem? xs solt ≡ some o) × (o.object ≡ object) × (o.kind ≡ kind)

is_entry→eqs :
    (object : ℕ) (kind : ObjectType) (o : ExposedObject)
    → is_entry object kind o ≡ true
    → (o.object ≡ object) × (o.kind ≡ kind)
is_entry→eqs object kind o h = (ground arith, code-injective o.kind kind (ground arith))

is_entry_self :
    (object : ℕ) (kind : ObjectType) (o : ExposedObject)
    → o.object ≡ object
    → o.kind ≡ kind
    → is_entry object kind o ≡ true
is_entry_self object kind o p q = ground arith

-- For an object that is not NX_NULL, `NX_ExposedObjectLocate` answers the invalid slot exactly when
-- no slot has the object with that type, and otherwise the first slot that has it.
pub locate_lem :
    (xs : List ExposedObject) (object : ℕ) (kind : ObjectType)
    → object ≢ 0
    → ((locate (some (table_of xs)) object kind ≡ none) × ((j : ℕ) → ¬ HasAt xs object kind j))
      ⊎ ((solt : ℕ) × (locate (some (table_of xs)) object kind ≡ some solt)
          × HasAt xs object kind solt
          × ((j : ℕ) → j < solt → ¬ HasAt xs object kind j))
unfolding locate
locate_lem xs object kind ne = elim (Option-cases (find_index (is_entry object kind) xs)) [
  | inl e ↦ inl (
    ground arith,
    λ j (o, at_j, p, q). ground (
      arith,
      find_index-none (is_entry object kind) xs j e at_j,
      is_entry_self object kind o p q,
    ),
  )
  | inr (i, e) ↦
      let (o, at_i, hit) = find_index-some (is_entry object kind) xs i e in
      inr (
        i,
        ground arith,
        (o, at_i, (is_entry→eqs object kind o hit).0, (is_entry→eqs object kind o hit).1),
        λ j lt (o', at_j, p, q). ground (
          arith,
          find_index-first (is_entry object kind) xs i j e lt at_j,
          is_entry_self object kind o' p q,
        ),
      )
]

some_table-injective :
    (xs ys : List ExposedObject) (i j : ℕ)
    → ◌≡◌ {A = Option Table × Error × Option ℕ}
        (some (table_of xs), eok, some i)
        (some (table_of ys), eok, some j)
    → (xs ≡ ys) × (i ≡ j)
some_table-injective xs ys i j h = ground arith

Installed-eq :
    (xs ys : List ExposedObject) (object : ℕ) (kind : ObjectType) (handler solt : ℕ)
    → install (some (table_of xs)) object kind handler ≡ (some (table_of ys), eok, some solt)
    → Installed xs (entry object kind handler) ys solt
Installed-eq xs ys object kind handler solt done = elim (install_lem xs object kind handler) [
  | inl (_, e) ↦ absurd (ground arith)
  | inr (zs, i, new, e) ↦
      let (same_xs, same_i) = some_table-injective zs ys i solt (sym e ∙ done) in
      rw (← same_xs, ← same_i) new
]

-- An object that no slot has yet is found again, after `NX_ExposedObjectInstall` put it into a
-- table, at the slot that the call handed out.
pub locate-install :
    (xs ys : List ExposedObject) (object : ℕ) (kind : ObjectType) (handler solt : ℕ)
    → object ≢ 0
    → ((j : ℕ) → ¬ HasAt xs object kind j)
    → install (some (table_of xs)) object kind handler ≡ (some (table_of ys), eok, some solt)
    → locate (some (table_of ys)) object kind ≡ some solt
locate-install xs ys object kind handler solt ne fresh done =
    locate-Installed ys solt (Installed-eq xs ys object kind handler solt done)
  where
    locate-Installed :
        (zs : List ExposedObject) (i : ℕ)
        → Installed xs (entry object kind handler) zs i
        → locate (some (table_of zs)) object kind ≡ some i
    locate-Installed zs i new = elim (locate_lem zs object kind ne) [
      | inl (_, nowhere) ↦ absurd (nowhere i (entry object kind handler, new.placed, refl, refl))
      | inr (k, at_k, (o, stored, p, q), _) ↦ elim (ℕ_discrete i k) [
        | yes same ↦ at_k ∙ ap some (sym same)
        | no other ↦ absurd (fresh k (o, sym (new.others k other) ∙ stored, p, q))
      ]
    ]

-- `NX_ExposedObjectCopy` from slot `solt` of one table answers NX_EFAULT when there is no such
-- slot, and otherwise installs the same object, type and handler in the other table.
pub copy_lem :
    (dst src : List ExposedObject) (solt : ℕ)
    → ((length src ≤ solt)
        × (copy (some (table_of dst)) (some (table_of src)) solt
            ≡ (some (table_of dst), efault, none)))
      ⊎ ((o : ExposedObject) × (get_elem? src solt ≡ some o)
          × (copy (some (table_of dst)) (some (table_of src)) solt
              ≡ install (some (table_of dst)) o.object o.kind o.close))
unfolding copy get_object
copy_lem dst src solt = elim (Option-cases (get_elem? src solt)) [
  | inl e ↦ elim (dec_lt solt (length src)) [
    | yes lt ↦ absurd (ground (arith, get_elem?-total src solt lt))
    | no ge ↦ inl (omega arith, ground arith)
  ]
  | inr (o, e) ↦ inr (o, e, ground arith)
]
