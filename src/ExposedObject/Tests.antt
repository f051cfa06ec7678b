-- ===== src/ExposedObject/Tests.antt =====
-- A table of three slots with one object in it, and handlers that always answer NX_EOK.
use nxos.Base.{ℕ, zero, suc, ◌≡◌, refl, List, [], ◌∷◌, arith, Error, eok, is_eok}
use nxos.ExposedObject.{
  ObjectType, exobj_mutex, exobj_device, ExposedObject, CloseCall, empty_slot, uninstall,
  uninstall_in,
}
use nxos.ExposedObject.Install.{HasAt}
use nxos.ExposedObject.Uninstall.{uninstall-first}

abbrev device : ExposedObject
device = record { object = 64; kind = exobj_device; close = 7 }

abbrev slots : List ExposedObject
slots = device ∷ empty_slot ∷ empty_slot ∷ []

abbrev mutex : ExposedObject
mutex = record { object = 32; kind = exobj_mutex; close = 9 }

abbrev slots_2 : List ExposedObject
slots_2 = device ∷ mutex ∷ empty_slot ∷ []

abbrev accepts : ℕ → ℕ → ObjectType → Error
accepts handler object kind = eok

no_mutex : (j : ℕ) → ¬ HasAt slots 32 exobj_mutex j
no_mutex zero (o, at, p, q) = ground arith
no_mutex (suc zero) (o, at, p, q) = ground arith
no_mutex (suc (suc zero)) (o, at, p, q) = ground arith
no_mutex (suc (suc (suc j))) (o, at, p, q) = ground arith

-- The mutex in slot 1 is uninstalled, and the device is closed.
uninstall-first_example :
    (device.object ≡ device.object)
    × (device.close ≡ device.close)
    × (◌≡◌ {A = List CloseCall} [] [])
unfolding uninstall uninstall_in is_eok
uninstall-first_example =
    uninstall-first accepts device (mutex ∷ empty_slot ∷ []) 1
      (record { handler = 7; object = 64; kind = exobj_device }) [] refl
