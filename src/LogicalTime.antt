-- ===== src/LogicalTime.antt =====
-- map-api/src/logical-time.cc: the Lamport clock of a peer, `LogicalTime::current_`, and the times
-- that are drawn from it. A time is its `value_`, a uint64_t.
pub mod Lamport
pub mod Steps
use map_api.Prelude.{ℕ, ◌+◌, ◌-◌, ◌%◌, ◌^◌, ◌<◌, ◌≡◌, Bool, List, [], ◌∷◌, leb, ltb, if◌then◌else◌}
use map_api.Prelude.Checked.{Checked, ok, fatal, check}

-- The number of values of a uint64_t.
abbrev pub u64 : ℕ
u64 = 2 ^ 64

-- The default constructor.
abbrev pub invalid_time : ℕ
invalid_time = 0

unfoldable pub is_valid : ℕ → Bool
is_valid value = ltb 0 value

-- The initial value of `current_`.
abbrev pub initial_clock : ℕ
initial_clock = 1

-- A computation that may draw times: it takes the clock, and returns it beside the result.
abbrev pub Timed : Type 0 → Type 0
Timed A = ℕ → Checked (A × ℕ)

infixl 5 ◌>>=◌ ◌>>◌
abbrev pub ◌>>=◌ : {A B : Type 0} → Timed A → (A → Timed B) → Timed B
◌>>=◌ m f clock = elim (m clock) [ ok (a, later) ↦ f a later | fatal ↦ fatal ]

abbrev pub ◌>>◌ : {B : Type 0} → Timed (Unit {0}) → Timed B → Timed B
m >> k = m >>= λ _. k

abbrev pub pure : {A : Type 0} → A → Timed A
pure a clock = ok (a, clock)

abbrev pub lift : {A : Type 0} → Checked A → Timed A
lift r clock = elim r [ ok a ↦ ok (a, clock) | fatal ↦ fatal ]

-- CHECK in a computation that may draw times.
abbrev pub assert : Bool → Timed (Unit {0})
assert b = lift (check b)

unfoldable pub sample : Timed ℕ
sample current = ok (current, (current + 1) % u64)

unfoldable pub synchronize : ℕ → Timed (Unit {0})
synchronize other_time current =
    ok (tt, if leb current other_time then (other_time + 1) % u64 else current)

unfoldable pub just_before : ℕ → ℕ
just_before value = (value + u64 - 1) % u64

-- What a peer does with its clock: it draws a time, or it takes a time from a message.
pub data Event : Type 0 where
  draw : Event
  receive : ℕ → Event

-- The times that a sequence of events draws.
pub run : List Event → Timed (List ℕ)
run [] = pure []
run (draw ∷ events) = do t ← sample; times ← run events; pure (t ∷ times)
run (receive t ∷ events) = do synchronize t; run events
