-- ===== src/ExposedObject.antt =====
-- src/kernel/exobj.c and src/include/base/exobj.h: the table of kernel objects that a process sees as
-- numbered slots. A pointer is a number and 0 is NX_NULL; a pointer to a table is an option. The
-- storage carries its length, which is `objectCount`. The code of a close handler is not part of
-- the component: what a handler answers is the parameter `invoke`, and each operation returns the
-- handler calls that it made, in order. The spin lock round each body is not represented.
pub mod Install
pub mod Uninstall
mod Tests
use nxos.Base.{
  ℕ, zero, suc, ◌≡◌, Bool, true, false, ◌&&◌, ◌||◌, Option, none, some, List, [], ◌∷◌, ◌++◌, ltb,
  ◌==◌, if◌then◌else◌, length, get_elem?, set, replicate, find_index, Error, is_eok, eok, einval,
  enomem, efault, enores,
}

-- `NX_ExposedObjectType`
pub data ObjectType : Type 0 where
  exobj_none exobj_process exobj_thread exobj_snapshot exobj_mutex exobj_semaphore exobj_device :
      ObjectType

abbrev pub type_code : ObjectType → ℕ
type_code exobj_none = 0
type_code exobj_process = 1
type_code exobj_thread = 2
type_code exobj_snapshot = 3
type_code exobj_mutex = 4
type_code exobj_semaphore = 5
type_code exobj_device = 6

pub record ExposedObject : Type 0 where
  pub object : ℕ
  pub kind : ObjectType
  pub close : ℕ

-- `objects` is none while the pointer is NX_NULL.
pub record Table : Type 0 where
  pub objects : Option (List ExposedObject)

-- A call of a close handler: the handler and its two arguments.
pub record CloseCall : Type 0 where
  pub handler : ℕ
  pub object : ℕ
  pub kind : ObjectType

abbrev pub exobj_max_nr : ℕ
exobj_max_nr = 128

-- What the loops of `TableInit` and `Uninstall` write into a slot.
abbrev pub empty_slot : ExposedObject
empty_slot = record { object = 0; kind = exobj_none; close = 0 }

abbrev pub table_of : List ExposedObject → Table
table_of xs = record { objects = some xs }

-- `allocated` says whether NX_MemAlloc returned storage.
pub table_init : (allocated : Bool) → Option Table → ℕ → Option Table × Error
table_init allocated none count = (none, einval)
table_init allocated (some t) count =
    if count == 0 || ltb exobj_max_nr count
    then (some t, einval)
    else if allocated
    then (some (table_of (replicate count empty_slot)), eok)
    else (some (record { objects = none }), enomem)

-- `NX_ExposedObjectAlloc`: none is -1.
pub alloc : List ExposedObject → Option ℕ
alloc xs = find_index (λ o. o.object == 0) xs

-- `NX_ExposedObjectGet`: the entry at a slot, none for NX_NULL.
pub get_object : Option Table → ℕ → Option ExposedObject
get_object none solt = none
get_object (some t) solt = elim t.objects [ none ↦ none | some xs ↦ get_elem? xs solt ]

abbrev pub is_entry : ℕ → ObjectType → ExposedObject → Bool
is_entry object kind o = o.object == object && type_code o.kind == type_code kind

-- `NX_ExposedObjectLocate`: none is NX_SOLT_INVALID_VALUE.
pub locate : Option Table → ℕ → ObjectType → Option ℕ
locate none object kind = none
locate (some t) object kind =
    if object == 0
    then none
    else elim t.objects [ none ↦ none | some xs ↦ find_index (is_entry object kind) xs ]

-- The part of `NX_ExposedObjectInstall` under the lock; the option is `*outSolt`.
install_in : List ExposedObject → ExposedObject → List ExposedObject × Error × Option ℕ
unfolding alloc
install_in xs new = elim (alloc xs) [
  | none ↦ (xs, enores, none)
  | some solt ↦ (set xs solt new, eok, some solt)
]

pub install :
    Option Table → (object : ℕ) → ObjectType → (handler : ℕ) → Option Table × Error × Option ℕ
unfolding install_in
install none object kind handler = (none, einval, none)
install (some t) object kind handler = elim t.objects [
  | none ↦ (some t, efault, none)
  | some xs ↦
      let (ys, err, solt) =
        install_in xs (record { object = object; kind = kind; close = handler }) in
      (some (table_of ys), err, solt)
]

module _ (invoke : ℕ → ℕ → ObjectType → Error) where
  -- `objects->close(objects->object, objects->type)`: the entry is that of slot 0.
  close_first : ExposedObject → Error × List CloseCall
  close_first first = if first.close == 0 then (eok, []) else (
    invoke first.close first.object first.kind,
    record { handler = first.close; object = first.object; kind = first.kind } ∷ [],
  )

  uninstall_in : List ExposedObject → ℕ → List ExposedObject × Error × List CloseCall
  unfolding close_first
  uninstall_in [] solt = ([], einval, [])
  uninstall_in (first ∷ rest) solt =
      if ltb solt (length (first ∷ rest))
      then (if first.object == 0
          then (first ∷ rest, efault, [])
          else (let (err, calls) = close_first first in
              if is_eok err
              then (set (first ∷ rest) solt empty_slot, eok, calls)
              else (first ∷ rest, err, calls)))
      else (first ∷ rest, einval, [])

  pub uninstall : Option Table → ℕ → Option Table × Error × List CloseCall
  unfolding uninstall_in
  uninstall none solt = (none, einval, [])
  uninstall (some t) solt = elim t.objects [
    | none ↦ (some t, efault, [])
    | some xs ↦ let (ys, err, calls) = uninstall_in xs solt in (some (table_of ys), err, calls)
  ]

  -- The loop of `NX_ExposedObjectTableExit`: `n` slots are left, from `solt` on.
  exit_loop : ℕ → ℕ → List ExposedObject → List ExposedObject × List CloseCall
  unfolding uninstall_in
  exit_loop zero solt xs = (xs, [])
  exit_loop (suc n) solt xs =
      let (ys, err, calls) = uninstall_in xs solt in
      let (zs, more) = exit_loop n (suc solt) ys in (zs, calls ++ more)

  -- The storage returned is the one that NX_MemFree is then given.
  pub table_exit : Option Table → Option Table × Error × List CloseCall
  unfolding exit_loop
  table_exit none = (none, einval, [])
  table_exit (some t) = elim t.objects [
    | none ↦ (some t, eok, [])
    | some xs ↦ let (ys, calls) = exit_loop (length xs) 0 xs in (some (table_of ys), eok, calls)
  ]

-- `NX_ExposedObjectCopy` from `src` to another table `dst`.
pub copy : (dst src : Option Table) → ℕ → Option Table × Error × Option ℕ
unfolding install get_object
copy none src solt = (none, einval, none)
copy (some d) none solt = (some d, einval, none)
copy (some d) (some s) solt = elim (get_object (some s) solt) [
  | none ↦ (some d, efault, none)
  | some o ↦ install (some d) o.object o.kind o.close
]
