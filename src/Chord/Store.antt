-- ===== src/Chord/Store.antt =====
-- What the clients of the distributed index use of it: `addData` and `retrieveData` of
-- map-api/src/chord-index.cc, on a state that stands for the peers of the ring.
use map_api.Prelude.{ℕ, ◌≡◌, Bool, true, Option, some, List, ◌==◌, if◌then◌else◌}
use map_api.Prelude.Checked.{Checked, ok}

-- The key is given first. What is retrieved is null if there is no such data.
pub record Store (S : Type 0) : Type 0 where
  pub add_data : ℕ → List ℕ → S → Checked (Bool × S)
  pub retrieve_data : ℕ → S → Checked (Option (List ℕ) × S)

-- In a settled state every read succeeds and changes nothing, every write succeeds and leaves a
-- settled state, and a key has the value that was last written to it.
pub record StoreLaws (S : Type 0) (store : Store S) : Type 1 where
  pub IsSettled : S → Type 0
  pub content : S → ℕ → Option (List ℕ)
  pub retrieve_data-content :
      (key : ℕ) (s : S) → IsSettled s → store.retrieve_data key s ≡ ok (content s key, s)
  pub add_data-content :
      (key : ℕ) (value : List ℕ) (s : S)
      → IsSettled s
      → (s' : S) × (store.add_data key value s ≡ ok (true, s'))
        × IsSettled s'
        × ((k : ℕ) → content s' k ≡ (if key == k then some value else content s k))
