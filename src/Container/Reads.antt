-- ===== src/Container/Reads.antt =====
-- What the reads of a container return: `dump`, `findByRevision`, `countByRevision` and
-- `getAvailableIds` against `getById`.
use map_api.Prelude.{
  ◌∙◌, inl, inr, Bool-cases, is_some, ℕ, suc, ◌+◌, ◌≤◌, ◌<◌, ◌≡◌, refl, ap, Bool, true, false,
  Option, none, some, List, [], ◌∷◌, ◌==◌, if◌then◌else◌, arith,
}
use map_api.Prelude.Checked.{ok, fatal}
use map_api.Prelude.Map.{
  Map, find, has, emplace, Unique, find-none, find-emplace, has-emplace, Unique-emplace,
}
use map_api.Prelude.IdSet.{size, size-snoc, contains}
use map_api.Revision.{Revision}
use map_api.LogicalTime.{u64}
use map_api.LogicalTime.Lamport.{sample_lem}
use map_api.Container.{
  Container, past, after_past, find_by_revision, count_by_revision, dump, num_available_ids,
}
use map_api.Container.Ram.{
  History, HistoryMap, latest_at, get_by_id_impl, item_matches, keep_if, found_item, add_found,
  find_loop, find_by_revision_impl, add_count, count_by_revision_impl, add_available,
  available_ids_impl,
}

-- The item at a time, if it passes the test.
abbrev pub selected : (Revision → Bool) → Option Revision → Option Revision
selected matches none = none
selected matches (some r) = if matches r then some r else none

-- The search by a field can be evaluated at every revision, and `matches` is its result.
abbrev pub Decides : Option ℕ → Revision → (Revision → Bool) → Type 0
Decides key value_holder matches = (r : Revision) → item_matches key value_holder r ≡ ok (matches r)

pub Decides-all : (value_holder : Revision) → Decides none value_holder (λ r. true)
unfolding item_matches
Decides-all value_holder r = refl

has_eq : {V : Type 0} (k j : ℕ) (m : Map V) → k ≡ j → has k m ≡ has j m
has_eq k j m e = ap (λ i. has i m) e

size-emplace :
    (id : ℕ) (r : Revision) (dest : Map Revision)
    → has id dest ≡ false
    → size (emplace id r dest) ≡ size dest + 1
unfolding emplace
size-emplace id r dest h = ground (arith, size-snoc dest (id, r))

available_cons :
    (id j : ℕ) (o : Option Revision) (ids : List ℕ)
    → contains j (add_available id o ids)
      ≡ (if id == j then (if is_some o then true else contains j ids) else contains j ids)
unfolding add_available contains
available_cons id j none ids = ground arith
available_cons id j (some r) ids = ground arith

add_count_plus : (o : Option Revision) (n k : ℕ) → add_count o n + k ≡ n + add_count o k
unfolding add_count
add_count_plus none n k = refl
add_count_plus (some r) n k = omega arith

module _ (key : Option ℕ) (value_holder : Revision) (time : ℕ) (matches : Revision → Bool)
    (decides : Decides key value_holder matches) where
  found_item_lem : (o : Option Revision) → found_item key value_holder o ≡ ok (selected matches o)
  unfolding found_item keep_if
  found_item_lem none = refl
  found_item_lem (some r) = ground (arith, decides r)

  -- One round puts the item into `dest`, where it is new.
  add_found_lem :
      (id : ℕ) (o : Option Revision) (dest : Map Revision)
      → has id dest ≡ false
      → (dest' : Map Revision) × (add_found id o dest ≡ ok dest')
        × ((j : ℕ) → has j dest ≡ true → find j dest' ≡ find j dest)
        × ((j : ℕ) → has j dest ≡ false → find j dest' ≡ (if id == j then o else none))
        × ((j : ℕ) → (id == j) ≡ false → has j dest' ≡ has j dest)
        × (Unique dest → Unique dest')
        × (size dest' ≡ add_count o (size dest))
  unfolding add_found add_count
  add_found_lem id none dest h =
      (dest, refl, λ j a. refl, λ j a. ground (arith, find-none j dest), λ j a. refl, λ u. u, refl)
  add_found_lem id (some r) dest h = (
    emplace id r dest,
    ground arith,
    λ j a. ground (arith, find-emplace id j r dest),
    λ j a. ground (arith, find-emplace id j r dest),
    λ j a. ground (arith, has-emplace id j r dest),
    Unique-emplace id r dest,
    omega (arith, size-emplace id r dest h),
  )

  -- What the loop has put into `dest'` when it has gone through the items.
  abbrev Found : HistoryMap → Map Revision → Map Revision → Type 0
  Found data_ dest dest' =
      ((j : ℕ) → has j dest ≡ true → find j dest' ≡ find j dest)
      × ((j : ℕ)
          → has j dest ≡ false
          → find j dest' ≡ selected matches (get_by_id_impl j time data_))
      × (Unique dest → Unique dest')
      × (n : ℕ) × (count_by_revision_impl key value_holder time data_ ≡ ok n)
      × (size dest' ≡ n + size dest)

  get-cons :
      (id j : ℕ) (h : History) (data_ : HistoryMap)
      → get_by_id_impl j time ((id, h) ∷ data_)
        ≡ (if id == j then latest_at time h else get_by_id_impl j time data_)
  unfolding get_by_id_impl find
  get-cons id j h data_ = ground arith

  get-unknown :
      (j : ℕ) (data_ : HistoryMap) → has j data_ ≡ false → get_by_id_impl j time data_ ≡ none
  unfolding get_by_id_impl
  get-unknown j data_ h = ground (arith, find-none j data_)

  Found-here :
      (id j : ℕ) (h : History) (data_ : HistoryMap) (dest dest1 dest' : Map Revision)
      → has id data_ ≡ false
      → (id == j) ≡ true
      → find j dest1 ≡ selected matches (latest_at time h)
      → Found data_ dest1 dest'
      → find j dest' ≡ selected matches (get_by_id_impl j time ((id, h) ∷ data_))
  Found-here id j h data_ dest dest1 dest' unknown hit e (old, new, _, _, _, _) =
      elim (Bool-cases (has j dest1)) [
        | inl a ↦ ground (arith, old j a, get-cons id j h data_)
        | inr a ↦ ground (
          arith,
          new j a,
          find-none j dest1 a,
          get-cons id j h data_,
          get-unknown j data_,
          has_eq id j data_,
        )
      ]

  find_loop_lem :
      (data_ : HistoryMap) (dest : Map Revision)
      → Unique data_
      → ((j : ℕ) → has j data_ ≡ true → has j dest ≡ false)
      → (dest' : Map Revision) × (find_loop key value_holder time data_ dest ≡ ok dest')
        × Found data_ dest dest'
  unfolding find_loop count_by_revision_impl
  find_loop_lem [] dest u disjoint = (
    dest,
    refl,
    (
      λ j a. refl,
      λ j a. ground (arith, find-none j dest, get-unknown j [] (unfold has in refl)),
      λ v. v,
      0,
      refl,
      omega arith,
    ),
  )
  find_loop_lem ((id, h) ∷ data_) dest u disjoint =
      let o = latest_at time h in
      let fresh = disjoint id (unfold has in ground arith) in
      let (dest1, e1, old1, new1, has1, u1, s1) =
        add_found_lem id (selected matches o) dest fresh in
      let apart = λ (j : ℕ) (a : has j data_ ≡ true).
        let ne : (id == j) ≡ false = ground (arith, has_eq id j data_) in
        has1 j ne ∙ disjoint j (unfold has in ground arith) in
      let (dest', e2, found) = find_loop_lem data_ dest1 u.1 apart in
      (
        dest',
        rw (found_item_lem o) (rw e1 e2),
        (
          λ j a.
              let ne : (id == j) ≡ false = ground (arith, has_eq id j dest) in
              found.0 j (has1 j ne ∙ a) ∙ old1 j a,
          λ j a. elim (Bool-cases (id == j)) [
            | inl hit ↦
                Found-here id j h data_ dest dest1 dest' u.0 hit (ground (arith, new1 j a)) found
            | inr miss ↦ ground (arith, found.1 j (has1 j miss ∙ a), get-cons id j h data_)
          ],
          λ v. found.2 (u1 v),
          add_count (selected matches o) found.3,
          ground (arith, found_item_lem o, found.4),
          omega (arith, add_count_plus (selected matches o) found.3 (size dest), s1, found.5),
        ),
      )

  -- The search returns the items that stand at the time and pass the test, and nothing else.
  pub find_by_revision_impl_lem :
      (data_ : HistoryMap)
      → Unique data_
      → (dest : Map Revision) × (find_by_revision_impl key value_holder time data_ ≡ ok dest)
        × ((j : ℕ) → find j dest ≡ selected matches (get_by_id_impl j time data_))
        × Unique dest
        × (count_by_revision_impl key value_holder time data_ ≡ ok (size dest))
  unfolding find_by_revision_impl
  find_by_revision_impl_lem data_ u =
      let (dest, e, found) = find_loop_lem data_ [] u (λ j a. unfold has in refl) in
      (
        dest,
        e,
        λ j. found.1 j (unfold has in refl),
        found.2 tt,
        found.4 ∙ ap ok (omega (arith, found.5)),
      )

-- `getAvailableIds` lists exactly the ids that `getById` finds at the time.
pub contains-available_ids_impl :
    (time : ℕ) (data_ : HistoryMap) (j : ℕ)
    → Unique data_
    → contains j (available_ids_impl time data_) ≡ is_some (get_by_id_impl j time data_)
unfolding available_ids_impl get_by_id_impl contains find
contains-available_ids_impl time [] j u = refl
contains-available_ids_impl time ((id, h) ∷ data_) j u = ground (
  arith,
  contains-available_ids_impl time data_ j u.1,
  available_cons id j (latest_at time h) (available_ids_impl time data_),
  find-none j data_,
  has_eq id j data_,
)

-- At a time that the clock has passed, `dump` does not abort and draws one time. It returns, under
-- its id, each item that `getById` finds at that time, and nothing else, and `numAvailableIds`
-- returns the number of them.
pub dump_lem :
    (c : Container) (time clock : ℕ)
    → Unique c.data_
    → time < clock
    → suc clock < u64
    → (dest : Map Revision) × (dump time c clock ≡ ok (dest, clock + 1))
      × ((j : ℕ) → find j dest ≡ get_by_id_impl j time c.data_)
      × Unique dest
      × (num_available_ids time c clock ≡ ok (size dest, clock + 1))
unfolding dump find_by_revision num_available_ids count_by_revision after_past past
dump_lem c time clock u lt fits =
    let (dest, e, found, unique, count) =
      find_by_revision_impl_lem none c.template time (λ r. true) (Decides-all c.template) c.data_
        u in
    (
      dest,
      ground (arith, sample_lem clock fits, e),
      λ j. found j ∙ all_selected (get_by_id_impl j time c.data_),
      unique,
      ground (arith, sample_lem clock fits, count),
    )
  where
    all_selected : (o : Option Revision) → selected (λ r. true) o ≡ o
    all_selected none = refl
    all_selected (some r) = refl

-- Looking at a time that the clock has not passed aborts.
pub dump_future :
    (c : Container) (time clock : ℕ) → clock ≤ time → suc clock < u64 → dump time c clock ≡ fatal
unfolding dump find_by_revision after_past past
dump_future c time clock le fits = ground (arith, sample_lem clock fits)
