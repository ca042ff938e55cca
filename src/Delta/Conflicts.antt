-- ===== src/Delta/Conflicts.antt =====
-- What the manual merge makes of a delta.
use map_api.Prelude.{ℕ, ◌+◌, ◌≡◌, ◌⊎◌, inl, inr, none, List, ◌++◌, if◌then◌else◌, arith}
use map_api.Prelude.Checked.{ok}
use map_api.Prelude.Map.{Map, find, has, insert_range-nil}
use map_api.Prelude.IdSet.{size}
use map_api.Revision.{Revision}
use map_api.View.{ViewBase}
use map_api.View.Shows.{Items, Shows}
use map_api.Delta.{Delta, empty, num_changes}
use map_api.Delta.Keyed.{IsKeyed}
use map_api.Delta.Invariant.{IsSeparate}
use map_api.Delta.Traverse.{Conflict, prepare_manual_merge}
use map_api.Delta.Split.{
  Entries-IsKeyed, IsEntry, AllConflicts, HasConflicts, IsIn-left, IsIn-right, AllConflicts-append,
  AllConflicts-weaken, size-append, split_lem,
}

-- The revision is a change of the delta.
abbrev pub IsChange : Delta → Revision → Type 0
IsChange d r = IsEntry d.insertions_ r ⊎ (IsEntry d.updates_ r ⊎ IsEntry d.removes_ r)

-- The changes of a delta without those of the items in conflict.
abbrev pub WithoutConflicts : Map ℕ → Delta → Delta → Type 0
WithoutConflicts potential d free =
    (id : ℕ)
    → (find id free.insertions_ ≡ (if has id potential then none else find id d.insertions_))
      × (find id free.updates_ ≡ (if has id potential then none else find id d.updates_))
      × (find id free.removes_ ≡ (if has id potential then none else find id d.removes_))

-- Preparing a manual merge into an empty delta does not abort. The delta gets exactly the changes
-- whose items are not in conflict. The conflicts pair exactly the changes whose items are in
-- conflict, as they stand in the delta that is merged, with the current revisions of these items;
-- together they are as many as the changes.
pub prepare_manual_merge_lem :
    (view : ViewBase) (current : Items) (potential : Map ℕ) (d : Delta)
    → Shows view current
    → IsSeparate d
    → (free : Delta) × (conflicts : List Conflict) × (prepare_manual_merge view potential d empty
        ≡ ok (free, conflicts))
      × WithoutConflicts potential d free
      × AllConflicts potential current (IsChange d) conflicts
      × HasConflicts potential current (IsChange d) conflicts
      × (num_changes d ≡ num_changes free + size conflicts)
unfolding prepare_manual_merge num_changes
prepare_manual_merge_lem view current potential d s sep =
    let part = λ (m : Map Revision) (k : IsKeyed m).
      split_lem view current potential m s k.unique (Entries-IsKeyed m k) in
    let (f1, c1, e1, (found1, size1, _, u1, all1, every1)) = part d.insertions_ sep.insertions in
    let (f2, c2, e2, (found2, size2, _, u2, all2, every2)) = part d.updates_ sep.updates in
    let (f3, c3, e3, (found3, size3, _, u3, all3, every3)) = part d.removes_ sep.removes in
    (
      record { insertions_ = f1; updates_ = f2; removes_ = f3 },
      c1 ++ (c2 ++ c3),
      ground (
        arith,
        e1,
        e2,
        e3,
        insert_range-nil f1 u1,
        insert_range-nil f2 u2,
        insert_range-nil f3 u3,
      ),
      λ id. (found1 id, found2 id, found3 id),
      AllConflicts-append potential current (IsChange d) c1 (c2 ++ c3)
          (changes (IsEntry d.insertions_) c1 (λ r. inl) all1)
          (AllConflicts-append potential current (IsChange d) c2 c3
            (changes (IsEntry d.updates_) c2 (λ r h. inr (inl h)) all2)
            (changes (IsEntry d.removes_) c3 (λ r h. inr (inr h)) all3)),
      λ r change h. elim change [
        | inl i ↦ IsIn-left (conflict r) c1 (c2 ++ c3) (every1 r i h)
        | inr (inl i) ↦
            IsIn-right (conflict r) c1 (c2 ++ c3) (IsIn-left (conflict r) c2 c3 (every2 r i h))
        | inr (inr i) ↦
            IsIn-right (conflict r) c1 (c2 ++ c3) (IsIn-right (conflict r) c2 c3 (every3 r i h))
      ],
      omega (arith, size-append c1 (c2 ++ c3), size-append c2 c3),
    )
  where
    conflict : Revision → Conflict
    conflict r = record { theirs = current r.id; ours = r }

    changes :
        (IsOurs : Revision → Type 0) (xs : List Conflict)
        → ((r : Revision) → IsOurs r → IsChange d r)
        → AllConflicts potential current IsOurs xs
        → AllConflicts potential current (IsChange d) xs
    changes IsOurs xs f h = AllConflicts-weaken potential current IsOurs (IsChange d) xs f h
