-- ===== src/ExposedObject/Uninstall.antt =====
-- What taking entries out of the table of src/kernel/exobj.c does: `uninstall` and `table_exit`.
use nxos.Base.{
  ℕ, zero, suc, ◌+◌, ◌<◌, ◌≡◌, refl, ◌≢◌, ◌⊎◌, inr, some, List, [], ◌∷◌, arith, length, get_elem?,
  set, get_elem?-set_self, get_elem?-set_ne, length-set, eok, efault, Error, is_eok→eq, is_eok→ne,
  is_eok-eok,
}
use nxos.ExposedObject.{
  ObjectType, ExposedObject, table_of, CloseCall, empty_slot, alloc, install, close_first,
  uninstall_in, uninstall, exit_loop, table_exit,
}

-- Slot `solt` was given up and nothing else changed.
pub record Released (xs : List ExposedObject) (solt : ℕ) (ys : List ExposedObject) : Type 0 where
  pub cleared : get_elem? ys solt ≡ some empty_slot
  pub others : (j : ℕ) → solt ≢ j → get_elem? ys j ≡ get_elem? xs j
  pub same_count : length ys ≡ length xs

module _ (invoke : ℕ → ℕ → ObjectType → Error) where
  set-Released :
      (xs : List ExposedObject) (solt : ℕ)
      → solt < length xs
      → Released xs solt (set xs solt empty_slot)
  set-Released xs solt lt = record {
    cleared = get_elem?-set_self xs solt empty_slot lt;
    others = λ j ne. get_elem?-set_ne xs solt j empty_slot ne;
    same_count = length-set xs solt empty_slot;
  }

  abbrev Outcome : List ExposedObject → ℕ → List ExposedObject → Error → Type 0
  Outcome xs solt ys err = ((err ≡ eok) × Released xs solt ys) ⊎ ((err ≢ eok) × (ys ≡ xs))

  uninstall_in-Outcome :
      (xs : List ExposedObject) (solt : ℕ)
      → let (ys, err, calls) = uninstall_in invoke xs solt in Outcome xs solt ys err
  unfolding uninstall_in close_first
  uninstall_in-Outcome [] solt = inr (cc, refl)
  uninstall_in-Outcome (first ∷ rest) solt = ground (
    arith,
    is_eok→eq (invoke first.close first.object first.kind),
    is_eok→ne (invoke first.close first.object first.kind),
    is_eok-eok,
    set-Released (first ∷ rest) solt,
  )

  -- `NX_ExposedObjectUninstalll` on a table with storage either answers NX_EOK, empties the slot that
  -- it was asked for and leaves every other slot, or answers an error and leaves the whole table.
  pub uninstall-Released :
      (xs : List ExposedObject) (solt : ℕ)
      → (ys : List ExposedObject) × (err : Error) × (calls : List CloseCall) × (uninstall invoke
            (some (table_of xs))
            solt
          ≡ (some (table_of ys), err, calls))
        × Outcome xs solt ys err
  unfolding uninstall
  uninstall-Released xs solt =
      let (ys, err, calls) = uninstall_in invoke xs solt in
      (ys, err, calls, refl, uninstall_in-Outcome xs solt)

  -- Every close handler that `NX_ExposedObjectUninstalll` calls, for any slot, is called for the
  -- object of slot 0, with the handler of slot 0.
  pub uninstall-first :
      (first : ExposedObject) (rest : List ExposedObject) (solt : ℕ) (c : CloseCall)
      (more : List CloseCall)
      → (uninstall invoke (some (table_of (first ∷ rest))) solt).2 ≡ c ∷ more
      → (c.object ≡ first.object) × (c.handler ≡ first.close) × (more ≡ [])
  unfolding uninstall uninstall_in close_first
  uninstall-first first rest solt c more h = ground arith

  -- While slot 0 is empty, `NX_ExposedObjectUninstalll` refuses every slot of the table with
  -- NX_EFAULT, calls no handler and leaves the table as it was.
  pub uninstall_blocked :
      (first : ExposedObject) (rest : List ExposedObject) (solt : ℕ)
      → first.object ≡ 0
      → solt < length (first ∷ rest)
      → uninstall invoke (some (table_of (first ∷ rest))) solt
        ≡ (some (table_of (first ∷ rest)), efault, [])
  unfolding uninstall uninstall_in
  uninstall_blocked first rest solt free lt = ground arith

  exit_loop_blocked :
      (n solt : ℕ) (first : ExposedObject) (rest : List ExposedObject)
      → first.object ≡ 0
      → solt + n ≡ length (first ∷ rest)
      → exit_loop invoke n solt (first ∷ rest) ≡ (first ∷ rest, [])
  unfolding exit_loop uninstall_in
  exit_loop_blocked zero solt first rest free e = refl
  exit_loop_blocked (suc n) solt first rest free e =
      ground (arith, exit_loop_blocked n (suc solt) first rest free)

  -- When the handler of slot 0 answers NX_EOK, `NX_ExposedObjectTableExit` calls that handler and no
  -- other, and leaves the objects of all other slots in the table.
  pub table_exit-first :
      (first : ExposedObject) (rest : List ExposedObject)
      → first.object ≢ 0
      → first.close ≢ 0
      → invoke first.close first.object first.kind ≡ eok
      → table_exit invoke (some (table_of (first ∷ rest))) ≡ (
        some (table_of (empty_slot ∷ rest)),
        eok,
        record { handler = first.close; object = first.object; kind = first.kind } ∷ [],
      )
  unfolding table_exit exit_loop uninstall_in close_first
  table_exit-first first rest used has ok =
      ground (arith, is_eok-eok, exit_loop_blocked (length rest) 1 empty_slot rest refl)

  -- An object that `NX_ExposedObjectInstall` put into a free slot 0 is closed by its own handler when
  -- slot 0 is uninstalled, and if the handler answers NX_EOK the table is back to what it was, with
  -- slot 0 cleared.
  pub uninstall-install :
      (first : ExposedObject) (rest : List ExposedObject) (object : ℕ) (kind : ObjectType)
      (handler : ℕ)
      → first.object ≡ 0
      → object ≢ 0
      → handler ≢ 0
      → invoke handler object kind ≡ eok
      → uninstall invoke (install (some (table_of (first ∷ rest))) object kind handler).0 0 ≡ (
        some (table_of (empty_slot ∷ rest)),
        eok,
        record { handler = handler; object = object; kind = kind } ∷ [],
      )
  unfolding install alloc uninstall uninstall_in close_first
  uninstall-install first rest object kind handler free ne has ok = ground (arith, is_eok-eok)
