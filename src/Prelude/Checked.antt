-- ===== src/Prelude/Checked.antt =====
-- Glog's CHECK macros: a failed CHECK, a LOG(FATAL) or a CHECK_NOTNULL of a null pointer aborts the
-- process. A function that may abort returns `Checked`.
use mathlib.Core.Path.{◌≡◌, refl}
use mathlib.Core.Bool.{Bool, true, false}
use mathlib.Core.Option.{Option, none, some}

infixl 5 ◌>>=◌ ◌>>◌
pub data Checked {ℓ} (A : Type ℓ) : Type ℓ where
  fatal : Checked A
  ok : A → Checked A

-- CHECK_NOTNULL(pointer), where `none` is the null pointer.
abbrev pub check_notnull {ℓ} : {A : Type ℓ} → Option A → Checked A
check_notnull (some pointed) = ok pointed
check_notnull none = fatal

-- CHECK(condition)
abbrev pub check : Bool → Checked (Unit {0})
check false = fatal
check true = ok tt

-- Nothing runs after an abort.
abbrev pub ◌>>=◌ {ℓ κ} : {A : Type ℓ} {B : Type κ} → Checked A → (A → Checked B) → Checked B
fatal >>= next = fatal
ok value >>= next = next value

abbrev pub ◌>>◌ {κ} : {B : Type κ} → Checked (Unit {0}) → Checked B → Checked B
fatal >> next = fatal
ok _ >> next = next

-- What a bind that does not abort went through.
pub >>=-eq-ok {ℓ κ} :
    {A : Type ℓ} {B : Type κ} (first : Checked A) (next : A → Checked B) {result : B}
    → (first >>= next) ≡ ok result
    → (value : A) × (first ≡ ok value) × (next value ≡ ok result)
>>=-eq-ok fatal next e = cc
>>=-eq-ok (ok value) next e = (value, refl, e)

-- A sequence that does not abort got past its first part.
pub >>-eq-ok {κ} :
    {B : Type κ} (first : Checked (Unit {0})) (next : Checked B) {result : B}
    → (first >> next) ≡ ok result
    → next ≡ ok result
>>-eq-ok fatal next e = cc
>>-eq-ok (ok _) next e = e
