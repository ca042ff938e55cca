-- ===== src/View/Updates.antt =====
-- `discardKnownUpdates`: which updates of a chunk a transaction has not seen.
use map_api.Prelude.{
  ℕ, ◌≡◌, ◌∙◌, refl, ap, false, Option, none, some, [], ◌∷◌, leb, ◌==◌, if◌then◌else◌, arith,
}
use map_api.Prelude.Checked.{ok}
use map_api.Prelude.Map.{Map, Unique, find, has, find-erase, find-none, Unique-erase}
use map_api.Container.{Container}
use map_api.View.{discard_until, discard_known, discard_committed, chunk_view, commit_history_view}
use map_api.View.Combined.{combined_view}

has_eq : {V : Type 0} (j k : ℕ) (m : Map V) → j ≡ k → has j m ≡ has k m
has_eq j k m e = ap (λ i. has i m) e

-- An update time that is later than the given one.
abbrev later_than : ℕ → Option ℕ → Option ℕ
later_than seen none = none
later_than seen (some time) = if leb time seen then none else some time

abbrev later_than_known : Option ℕ → Option ℕ → Option ℕ
later_than_known none time = time
later_than_known (some known) time = later_than known time

-- An update time that neither the view nor the last commit of the transaction has seen.
abbrev pub unseen : ℕ → Option ℕ → Option ℕ → Option ℕ
unseen view_time known time = later_than view_time (later_than_known known time)

has-discard_until :
    (view_time id : ℕ) (m : Map ℕ) → has id m ≡ false → has id (discard_until view_time m) ≡ false
unfolding discard_until has
has-discard_until view_time id [] h = refl
has-discard_until view_time id ((j, time) ∷ m) h = ground (arith, has-discard_until view_time id m)

find-discard_until :
    (view_time id : ℕ) (m : Map ℕ)
    → Unique m
    → find id (discard_until view_time m) ≡ later_than view_time (find id m)
unfolding discard_until find
find-discard_until view_time id [] u = refl
find-discard_until view_time id ((j, time) ∷ m) u =
    ground (arith, find-discard_until view_time id m u.1, find-none id m, has_eq j id m)

Unique-discard_until : (view_time : ℕ) (m : Map ℕ) → Unique m → Unique (discard_until view_time m)
unfolding discard_until
Unique-discard_until view_time [] u = tt
Unique-discard_until view_time ((j, time) ∷ m) u =
    ground (arith, Unique-discard_until view_time m u.1, has-discard_until view_time j m)

find-discard_known :
    (j known id : ℕ) (o : Option ℕ) (m : Map ℕ)
    → find j m ≡ o
    → find id (discard_known j known o m)
      ≡ (if j == id then later_than known (find id m) else find id m)
unfolding discard_known
find-discard_known j known id none m e = ground (arith, find_eq j id m)
  where
    find_eq : (a b : ℕ) (m : Map ℕ) → a ≡ b → find a m ≡ find b m
    find_eq a b m e = ap (λ i. find i m) e
find-discard_known j known id (some time) m e = ground (arith, find_eq j id m, find-erase j id m)
  where
    find_eq : (a b : ℕ) (m : Map ℕ) → a ≡ b → find a m ≡ find b m
    find_eq a b m e = ap (λ i. find i m) e

Unique-discard_known :
    (j known : ℕ) (o : Option ℕ) (m : Map ℕ) → Unique m → Unique (discard_known j known o m)
unfolding discard_known
Unique-discard_known j known none m u = u
Unique-discard_known j known (some time) m u = ground (arith, Unique-erase j m u)

find-discard_committed :
    (id : ℕ) (history m : Map ℕ)
    → Unique history
    → find id (discard_committed history m) ≡ later_than_known (find id history) (find id m)
unfolding discard_committed find
find-discard_committed id [] m u = refl
find-discard_committed id ((j, known) ∷ history) m u =
    find-discard_committed id history (discard_known j known (find j m) m) u.1
    ∙ step (find id history) refl
  where
    step :
        (o : Option ℕ)
        → find id history ≡ o
        → later_than_known (find id history) (find id (discard_known j known (find j m) m))
          ≡ later_than_known (if j == id then some known else find id history) (find id m)
    step o e = ground (
      arith,
      find-discard_known j known id (find j m) m refl,
      find-none id history,
      has_eq j id history,
    )

Unique-discard_committed : (history m : Map ℕ) → Unique m → Unique (discard_committed history m)
unfolding discard_committed
Unique-discard_committed [] m u = u
Unique-discard_committed ((j, known) ∷ history) m u =
    Unique-discard_committed history (discard_known j known (find j m) m)
      (Unique-discard_known j known (find j m) m u)

-- Of the update times of a chunk, the view of a transaction that began at `begin_time` keeps
-- exactly those that are later than its begin and than its own last commit of the item.
pub find-discard_known_updates :
    (history m : Map ℕ) (c : Container) (begin_time : ℕ)
    → Unique history
    → Unique m
    → (left : Map ℕ) × ((combined_view
            (chunk_view c begin_time)
            (commit_history_view history c)).discard_known_updates
          m
        ≡ ok left)
      × ((id : ℕ) → find id left ≡ unseen begin_time (find id history) (find id m))
unfolding combined_view chunk_view commit_history_view
find-discard_known_updates history m c begin_time uh um =
    let seen = discard_committed history m in
    (
      discard_until begin_time seen,
      refl,
      λ id.
          find-discard_until begin_time id seen (Unique-discard_committed history m um)
          ∙ ap (later_than begin_time) (find-discard_committed id history m uh),
    )
