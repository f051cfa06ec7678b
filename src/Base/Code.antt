-- ===== src/Base/Code.antt =====
-- `enum NX_Error` of src/include/base/error.h.
use mathlib.Core.Path.{◌≡◌, refl}
use mathlib.Core.Logic.{◌≢◌}
use mathlib.Core.Bool.{Bool, true, false}

pub data Error : Type 0 where
  eok error eperm einval etimeout efault enores eagain eintr enomem enofunc enosrch eio ebusy :
      Error

-- The test `err == NX_EOK`.
unfoldable pub is_eok : Error → Bool
is_eok eok = true
is_eok _ = false

pub is_eok→eq : (e : Error) → is_eok e ≡ true → e ≡ eok
unfolding is_eok
is_eok→eq eok h = refl
is_eok→eq _ h = cc

pub is_eok→ne : (e : Error) → is_eok e ≡ false → e ≢ eok
unfolding is_eok
is_eok→ne eok h = cc
is_eok→ne _ h = λ e. cc

pub is_eok-eok : is_eok eok ≡ true
unfolding is_eok
is_eok-eok = refl

pub is_eok-enomem : is_eok enomem ≡ false
unfolding is_eok
is_eok-enomem = refl
