-- ===== src/Spatial/Differences.antt =====
-- Which chunks a listener of a cell is told of.
use map_api.Prelude.{
  ℕ, suc, ◌<◌, ◌≤◌, ◌≡◌, ◌∙◌, refl, ap, inl, inr, Bool, false, not, List, [], ◌∷◌, ltb, ◌==◌, ◌&&◌,
  ◌||◌, if◌then◌else◌, Bool-cases, ltb→lt, arith,
}
use map_api.Prelude.IdSet.{contains}
use map_api.Spatial.CellData.{
  SpatialIndexCellData, add_if_not_present, insert_sorted, sort, set_difference, get_chunk_ids,
  chunk_id_set_diff, is_nonempty, Trigger, notify_all, local_update_callback,
}

-- No id stands twice.
abbrev pub IsUnique : List ℕ → Type 0
IsUnique [] = Unit {0}
IsUnique (id ∷ ids) = (contains id ids ≡ false) × IsUnique ids

abbrev AllFrom : ℕ → List ℕ → Type 0
AllFrom k [] = Unit {0}
AllFrom k (id ∷ ids) = (k ≤ id) × AllFrom k ids

abbrev IsSorted : List ℕ → Type 0
IsSorted [] = Unit {0}
IsSorted (id ∷ ids) = AllFrom id ids × IsSorted ids

abbrev IsAscending : List ℕ → Type 0
IsAscending [] = Unit {0}
IsAscending (id ∷ ids) = AllFrom (suc id) ids × IsAscending ids

AllFrom-trans : (j k : ℕ) (ids : List ℕ) → j ≤ k → AllFrom k ids → AllFrom j ids
AllFrom-trans j k [] le all = tt
AllFrom-trans j k (id ∷ ids) le all = (omega (arith, le, all.0), AllFrom-trans j k ids le all.1)

contains-below : (j k : ℕ) (ids : List ℕ) → AllFrom k ids → j < k → contains j ids ≡ false
unfolding contains
contains-below j k [] all lt = refl
contains-below j k (id ∷ ids) all lt = ground (arith, contains-below j k ids all.1 lt, all.0)

AllFrom-insert_sorted :
    (k id : ℕ) (ids : List ℕ) → k ≤ id → AllFrom k ids → AllFrom k (insert_sorted id ids)
unfolding insert_sorted
AllFrom-insert_sorted k id [] le all = (le, tt)
AllFrom-insert_sorted k id (j ∷ ids) le all =
    ground (arith, AllFrom-insert_sorted k id ids le all.1)

contains-insert_sorted :
    (k id : ℕ) (ids : List ℕ) → contains k (insert_sorted id ids) ≡ (id == k || contains k ids)
unfolding contains insert_sorted
contains-insert_sorted k id [] = ground arith
contains-insert_sorted k id (j ∷ ids) = ground (arith, contains-insert_sorted k id ids)

contains-sort : (k : ℕ) (ids : List ℕ) → contains k (sort ids) ≡ contains k ids
unfolding contains sort
contains-sort k [] = refl
contains-sort k (id ∷ ids) =
    ground (arith, contains-insert_sorted k id (sort ids), contains-sort k ids)

insert_sorted-IsSorted : (id : ℕ) (ids : List ℕ) → IsSorted ids → IsSorted (insert_sorted id ids)
unfolding insert_sorted
insert_sorted-IsSorted id [] s = (tt, tt)
insert_sorted-IsSorted id (j ∷ ids) s = elim (Bool-cases (ltb j id)) [
  | inl lt ↦
      rw lt (AllFrom-insert_sorted j id ids (ground arith) s.0, insert_sorted-IsSorted id ids s.1)
  | inr ge ↦ let le : id ≤ j = ground arith in rw ge ((le, AllFrom-trans id j ids le s.0), s)
]

sort-IsSorted : (ids : List ℕ) → IsSorted (sort ids)
unfolding sort
sort-IsSorted [] = tt
sort-IsSorted (id ∷ ids) = insert_sorted-IsSorted id (sort ids) (sort-IsSorted ids)

insert_sorted-IsAscending :
    (id : ℕ) (ids : List ℕ)
    → contains id ids ≡ false
    → IsAscending ids
    → IsAscending (insert_sorted id ids)
unfolding insert_sorted contains
insert_sorted-IsAscending id [] new s = (tt, tt)
insert_sorted-IsAscending id (j ∷ ids) new s = elim (Bool-cases (ltb j id)) [
  | inl lt ↦ rw lt (
    AllFrom-insert_sorted (suc j) id ids (ground arith) s.0,
    insert_sorted-IsAscending id ids (ground arith) s.1,
  )
  | inr ge ↦
      let le : suc id ≤ j = ground arith in
      rw ge ((le, AllFrom-trans (suc id) (suc j) ids (omega (arith, le)) s.0), s)
]

sort-IsAscending : (ids : List ℕ) → IsUnique ids → IsAscending (sort ids)
unfolding sort
sort-IsAscending [] u = tt
sort-IsAscending (id ∷ ids) u =
    insert_sorted-IsAscending id (sort ids) (contains-sort id ids ∙ u.0) (sort-IsAscending ids u.1)

contains_eq : (j k : ℕ) (ids : List ℕ) → j ≡ k → contains j ids ≡ contains k ids
contains_eq j k ids e = ap (λ i. contains i ids) e

contains-set_difference :
    (k : ℕ) (minuend subtrahend : List ℕ)
    → IsAscending minuend
    → IsSorted subtrahend
    → contains k (set_difference minuend subtrahend)
      ≡ (contains k minuend && not (contains k subtrahend))
unfolding contains set_difference
contains-set_difference k [] subtrahend a s = refl
contains-set_difference k (id ∷ minuend) [] a s = ground arith
contains-set_difference k (id ∷ minuend) (j ∷ subtrahend) a s = elim (Bool-cases (ltb id j)) [
  | inl lt ↦
      rw (lt, set_difference)
        (ground (
          arith,
          contains-set_difference k minuend (j ∷ subtrahend) a.1 s,
          contains-below id j subtrahend s.0 (ltb→lt id j lt),
          contains_eq id k subtrahend,
          lt,
        ))
  | inr ge ↦ elim (Bool-cases (ltb j id)) [
    | inl lt ↦
        rw (ge, lt, set_difference)
          (ground (
            arith,
            contains-set_difference k (id ∷ minuend) subtrahend a s.1,
            contains-below j (suc id) minuend a.0 (ground arith),
            contains_eq j k minuend,
            lt,
          ))
    | inr le ↦
        rw (ge, le, set_difference)
          (ground (
            arith,
            contains-set_difference k minuend subtrahend a.1 s.1,
            contains-below id (suc id) minuend a.0 (omega arith),
            contains_eq id k minuend,
            ge,
            le,
          ))
  ]
]

-- Adding a chunk keeps the ids apart.
pub contains-add_if_not_present :
    (k id : ℕ) (ids : List ℕ) → contains k (add_if_not_present id ids) ≡ (id == k || contains k ids)
unfolding contains add_if_not_present
contains-add_if_not_present k id [] = ground arith
contains-add_if_not_present k id (j ∷ ids) = ground (arith, contains-add_if_not_present k id ids)

pub add_if_not_present-IsUnique :
    (id : ℕ) (ids : List ℕ) → IsUnique ids → IsUnique (add_if_not_present id ids)
unfolding add_if_not_present contains
add_if_not_present-IsUnique id [] u = (refl, tt)
add_if_not_present-IsUnique id (j ∷ ids) u =
    ground (arith, contains-add_if_not_present j id ids, add_if_not_present-IsUnique id ids u.1)

-- Is the peer told of the chunk?
abbrev pub is_told : ℕ → ℕ → List Trigger → Bool
is_told peer chunk_id [] = false
is_told peer chunk_id (trigger ∷ triggers) =
    (trigger.peer == peer && contains chunk_id trigger.new_chunks) || is_told peer chunk_id triggers

is_told-notify_all :
    (position peer chunk_id : ℕ) (new_chunks listeners : List ℕ)
    → is_told peer chunk_id (notify_all position new_chunks listeners)
      ≡ (contains peer listeners && contains chunk_id new_chunks)
unfolding notify_all contains
is_told-notify_all position peer chunk_id new_chunks [] = refl
is_told-notify_all position peer chunk_id new_chunks (l ∷ listeners) =
    ground (arith, is_told-notify_all position peer chunk_id new_chunks listeners)

told_of :
    (position peer chunk_id : ℕ) (result listeners : List ℕ)
    → is_told peer chunk_id
        (if is_nonempty result then notify_all position result listeners else [])
      ≡ (contains peer listeners && contains chunk_id result)
told_of position peer chunk_id [] listeners = unfold contains in ground arith
told_of position peer chunk_id (id ∷ ids) listeners =
    is_told-notify_all position peer chunk_id (id ∷ ids) listeners

-- After an update of a cell whose new chunk ids are all different, a peer is told of a chunk exactly
-- if it listens to the cell and the chunk is among the new ids but not among the old ones.
pub is_told-local_update_callback :
    (position peer chunk_id : ℕ) (old_data new_data : SpatialIndexCellData)
    → IsUnique new_data.chunk_ids
    → is_told peer chunk_id (local_update_callback position old_data new_data) ≡ (
        contains peer new_data.listeners
        && (contains chunk_id new_data.chunk_ids && not (contains chunk_id old_data.chunk_ids)))
unfolding local_update_callback chunk_id_set_diff get_chunk_ids
is_told-local_update_callback position peer chunk_id old_data new_data u =
    told_of position peer chunk_id
      (set_difference (sort new_data.chunk_ids) (sort old_data.chunk_ids)) new_data.listeners
    ∙ rw
        (contains-set_difference chunk_id (sort new_data.chunk_ids) (sort old_data.chunk_ids)
          (sort-IsAscending new_data.chunk_ids u) (sort-IsSorted old_data.chunk_ids))
        (rw (contains-sort chunk_id new_data.chunk_ids)
          (rw (contains-sort chunk_id old_data.chunk_ids) refl))
