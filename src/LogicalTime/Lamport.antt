-- ===== src/LogicalTime/Lamport.antt =====
-- The order of the times that a peer draws.
use Prim.Native.Nat.{max}
use map_api.Prelude.{ℕ, suc, ◌+◌, ◌≤◌, ◌<◌, ◌≡◌, refl, List, [], ◌∷◌, arith, leb, if◌then◌else◌}
use map_api.Prelude.Checked.{ok}
use map_api.LogicalTime.{u64, sample, synchronize, just_before, Event, draw, receive, run}

-- No step of the clock wraps around.
abbrev pub Fits : List Event → ℕ → Type 0
Fits [] clock = Unit {0}
Fits (draw ∷ events) clock = (suc clock < u64) × Fits events (clock + 1)
Fits (receive t ∷ events) clock = (suc t < u64) × Fits events (if leb clock t then t + 1 else clock)

-- Each drawn time is at least `floor`, and greater than all that were drawn or received before it.
abbrev pub IsCausal : ℕ → List Event → List ℕ → Type 0
IsCausal floor [] [] = Unit {0}
IsCausal floor (draw ∷ events) (t ∷ times) = (floor ≤ t) × IsCausal (suc t) events times
IsCausal floor (receive t ∷ events) times = IsCausal (max floor (suc t)) events times
IsCausal floor _ _ = ⊥

pub sample_lem : (clock : ℕ) → suc clock < u64 → sample clock ≡ ok (clock, clock + 1)
unfolding sample
sample_lem clock h = ground arith

pub synchronize_lem :
    (t clock : ℕ)
    → suc t < u64
    → synchronize t clock ≡ ok (tt, if leb clock t then t + 1 else clock)
unfolding synchronize
synchronize_lem t clock h = ground arith

run_from :
    (floor : ℕ) (events : List Event) (clock : ℕ)
    → floor ≤ clock
    → Fits events clock
    → (times : List ℕ) × (last : ℕ) × (run events clock ≡ ok (times, last))
      × IsCausal floor events times
unfolding run
run_from floor [] clock h fits = ([], clock, refl, tt)
run_from floor (draw ∷ events) clock h fits =
    let (times, last, e, causal) = run_from (suc clock) events (clock + 1) (omega arith) fits.1 in
    (clock ∷ times, last, ground (arith, sample_lem clock fits.0, e), (h, causal))
run_from floor (receive t ∷ events) clock h fits =
    let c = if leb clock t then t + 1 else clock in
    let (times, last, e, causal) = run_from (max floor (suc t)) events c (ground arith) fits.1 in
    (times, last, ground (arith, synchronize_lem t clock fits.0, e), causal)

-- While the clock does not wrap around, every sequence of events runs to its end, and each time
-- that it draws is greater than every time drawn or received before it.
pub run-IsCausal :
    (events : List Event) (clock : ℕ)
    → Fits events clock
    → (times : List ℕ) × (last : ℕ) × (run events clock ≡ ok (times, last))
      × IsCausal clock events times
run-IsCausal events clock fits = run_from clock events clock (omega arith) fits

-- `just_before` of a time is less than it, and no time that is less than it is greater.
pub just_before_lem : (t s : ℕ) → s < t → t < u64 → (just_before t < t) × (s ≤ just_before t)
unfolding just_before
just_before_lem t s lt fits = (omega arith, omega arith)
