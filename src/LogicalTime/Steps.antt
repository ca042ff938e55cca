-- ===== src/LogicalTime/Steps.antt =====
-- What a computation that drew times and did not abort went through.
use map_api.Prelude.{ℕ, ◌≡◌, refl, ap}
use map_api.Prelude.Checked.{Checked, ok, fatal}
use map_api.LogicalTime.{Timed, ◌>>=◌, lift}

pub timed-eq-ok :
    {A B : Type 0} (m : Timed A) (f : A → Timed B) (clock later : ℕ) (b : B)
    → (m >>= f) clock ≡ ok (b, later)
    → (a : A) × (middle : ℕ) × (m clock ≡ ok (a, middle)) × (f a middle ≡ ok (b, later))
timed-eq-ok {A} {B} m f clock later b e = go (m clock) e
  where
    go :
        (r : Checked (A × ℕ))
        → elim r [ ok (a, middle) ↦ f a middle | fatal ↦ fatal ] ≡ ok (b, later)
        → (a : A) × (middle : ℕ) × (r ≡ ok (a, middle)) × (f a middle ≡ ok (b, later))
    go (ok (a, middle)) h = (a, middle, refl, h)
    go fatal h = cc

pub lift-eq-ok :
    {A : Type 0} (r : Checked A) (clock later : ℕ) (a : A)
    → lift r clock ≡ ok (a, later)
    → (r ≡ ok a) × (later ≡ clock)
lift-eq-ok (ok x) clock later a e = (cc, cc)
lift-eq-ok fatal clock later a e = cc

-- The first computation is done.
pub timed-ok :
    {A B : Type 0} (m : Timed A) (f : A → Timed B) (clock middle : ℕ) (a : A)
    → m clock ≡ ok (a, middle)
    → (m >>= f) clock ≡ f a middle
timed-ok {A} {B} m f clock middle a e =
    ap (λ (r : Checked (A × ℕ)). elim r [ ok (x, mid) ↦ f x mid | fatal ↦ fatal ]) e
