-- ===== src/HeapCache/Objects.antt =====
-- The objects of a small span of src/mm/heap_cache.c.
use nxos.Base.{
  ℕ, zero, suc, ◌+◌, ◌-◌, ◌*◌, ◌/◌, ◌≤◌, ◌<◌, ◌≡◌, refl, ap, sym, some, arith, get_elem?, length,
  page_size, List, leb, ◌==◌, ◌&&◌, if◌then◌else◌, sub_word, word, none, ◌∙◌,
}
use nxos.HeapCache.{System, div_round_up, system_struct_size, objects_from, build_system}
use native.Mathlib.Nat.{
  div-mul-le_self, div-le_self, mul-le-mul_right, suc-mul, add-mul, div-add-mod, mod-lt, mul_comm,
}

objects_from-get :
    (start size n i o : ℕ)
    → get_elem? (objects_from start size n) i ≡ some o
    → (o ≡ start + i * size) × (i < n)
objects_from-get start size zero i o at = absurd (ground (arith, at))
objects_from-get start size (suc n) zero o at =
    let e : start ≡ o = ground (arith, at) in (omega (arith, e), omega arith)
objects_from-get start size (suc n) (suc i) o at =
    let (e, lt) = objects_from-get (start + size) size n i o at in
    (omega (arith, e, suc-mul i size), omega (arith, lt))

length-objects_from : (start size n : ℕ) → length (objects_from start size n) ≡ n
length-objects_from start size zero = refl
length-objects_from start size (suc n) = ap suc (length-objects_from (start + size) size n)

round_up : (x size : ℕ) → 0 < size → x ≤ div_round_up x size * size
round_up x size pos = omega (
  arith,
  pos,
  div-add-mod (x + (size - 1)) size,
  mod-lt (x + (size - 1)) pos,
  mul_comm size (div_round_up x size),
)

-- What a span of pages split into objects of a size comes to.
pub record IsSplit (span pages size : ℕ) (s : System) : Type 0 where
  pub counted : s.free_count ≡ length s.objects
  pub full : s.max_objects ≡ length s.objects
  pub some_object : 0 < length s.objects
  pub inside :
      (i o : ℕ)
      → get_elem? s.objects i ≡ some o
      → (span + system_struct_size ≤ o) × (o + size ≤ span + pages * page_size)
  pub apart :
      (i j o q : ℕ)
      → i < j
      → get_elem? s.objects i ≡ some o
      → get_elem? s.objects j ≡ some q
      → o + size ≤ q

-- A span of pages that has room for an object of a size that is not 0 behind the objects that the header
-- takes is split, and the assertions at the end hold: the free count and the most objects are the number of
-- objects, which is at least 1; each object lies behind the header and within the pages of the span, and
-- two objects do not overlap.
pub build_system-IsSplit :
    (span pages size : ℕ)
    → 0 < size
    → pages * page_size < word
    → div_round_up system_struct_size size < pages * page_size / size
    → (s : System) × (build_system span (pages * page_size / size) size ≡ some s)
      × IsSplit span pages size s
unfolding build_system
build_system-IsSplit span pages size pos fits more = (
  record {
    span = span;
    objects = objects;
    free_count = length objects;
    max_objects = count - used;
  },
  ap
        (λ n.
          let os = objects_from (span + used * size) size n in
          if leb 1 (length os) && length os == n
          then some (record { span = span; objects = os; free_count = length os; max_objects = n })
          else none)
        no_wrap
      ∙ ground (arith, number, more),
  record {
    counted = refl;
    full = sym number;
    some_object = omega (arith, number, more);
    inside =
        λ i o at. placed i o (objects_from-get (span + used * size) size (count - used) i o at);
    apart = λ i j o q lt at at'.
        ordered i j o q lt (objects_from-get (span + used * size) size (count - used) i o at)
          (objects_from-get (span + used * size) size (count - used) j q at');
  },
)
  where
    count : ℕ
    count = pages * page_size / size

    used : ℕ
    used = div_round_up system_struct_size size

    objects : List ℕ
    objects = objects_from (span + used * size) size (count - used)

    number : length objects ≡ count - used
    number = length-objects_from (span + used * size) size (count - used)

    no_wrap : sub_word count used ≡ count - used
    no_wrap = omega (arith, more, fits, div-le_self (pages * page_size) size)

    room : count * size ≤ pages * page_size
    room = div-mul-le_self (pages * page_size) size

    header : system_struct_size ≤ used * size
    header = round_up system_struct_size size pos

    placed :
        (i o : ℕ)
        → (o ≡ span + used * size + i * size) × (i < count - used)
        → (span + system_struct_size ≤ o) × (o + size ≤ span + pages * page_size)
    placed i o (e, lt) =
        let inside : (used + suc i) * size ≤ count * size =
          mul-le-mul_right size (omega (arith, lt)) in
        (
          omega (arith, e, header),
          omega (arith, e, inside, room, add-mul used (suc i) size, suc-mul i size),
        )

    ordered :
        (i j o q : ℕ)
        → i < j
        → (o ≡ span + used * size + i * size) × (i < count - used)
        → (q ≡ span + used * size + j * size) × (j < count - used)
        → o + size ≤ q
    ordered i j o q lt (e, _) (f, _) =
        omega (arith, e, f, mul-le-mul_right {m = suc i} {n = j} size lt, suc-mul i size)
