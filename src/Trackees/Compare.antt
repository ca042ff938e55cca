-- ===== src/Trackees/Compare.antt =====
-- Comparisons of tracked chunks, and the round trip through the message of a revision.
use map_api.Prelude.{
  ℕ, ◌≡◌, ◌∙◌, refl, ap, sym, ◌↔◌, inl, inr, true, false, Option, none, some, List, [], ◌∷◌, ◌==◌,
  ==_iff, ◌||◌, if◌then◌else◌, Bool-cases, arith,
}
use map_api.Prelude.Map.{
  Unique, Unique-assign, find, has, assign, find-assign, find-none, find-none-has, find-some-has,
}
use map_api.Prelude.IdSet.{contains, add, contains-add, is_subset-contains, contains-is_subset}
use map_api.Trackees.{
  ChunkTracking, Trackees, trackees_of, deserialize_table, deserialize, serialize, overlap_table,
  has_overlap, tracks,
}
use map_api.Trackees.Merge.{tracks-nil}

has_eq : (j k : ℕ) (m : Trackees) → j ≡ k → has j m ≡ has k m
has_eq j k m e = ap (λ i. has i m) e

tracks-assign :
    (t table k : ℕ) (ids : List ℕ) (m : Trackees)
    → tracks table k (assign t ids m) ≡ (if t == table then contains k ids else tracks table k m)
unfolding tracks
tracks-assign t table k ids m = ground (arith, find-assign t table ids m)

tracks-trackees_of :
    (t table k : ℕ) (m : Trackees) → t ≡ table → contains k (trackees_of t m) ≡ tracks table k m
unfolding tracks
tracks-trackees_of t table k m e = ap (λ i. contains k (trackees_of i m)) e

tracks-deserialize_table :
    (t table k : ℕ) (ids : List ℕ) (m : Trackees)
    → tracks table k (deserialize_table t ids m)
      ≡ (if tracks table k m then true else if t == table then contains k ids else false)
unfolding deserialize_table contains
tracks-deserialize_table t table k [] m = ground arith
tracks-deserialize_table t table k (id ∷ ids) m = ground (
  arith,
  tracks-deserialize_table t table k ids (assign t (add id (trackees_of t m)) m),
  tracks-assign t table k (add id (trackees_of t m)) m,
  contains-add id k (trackees_of t m),
  tracks-trackees_of t table k m,
)

untracked : (table k : ℕ) (m : Trackees) → has table m ≡ false → tracks table k m ≡ false
unfolding tracks contains
untracked table k m h = ground (arith, find-none table m)

tracks-cons :
    (t table k : ℕ) (ids : List ℕ) (m : Trackees)
    → tracks table k ((t, ids) ∷ m) ≡ (if t == table then contains k ids else tracks table k m)
unfolding tracks find
tracks-cons t table k ids m = ground arith

-- Reading back what was written into a revision adds exactly the tracked chunks that were written.
pub tracks-deserialize-serialize :
    (m read : Trackees) (table k : ℕ)
    → Unique m
    → tracks table k (deserialize (serialize m) read) ≡ (tracks table k read || tracks table k m)
unfolding serialize deserialize
tracks-deserialize-serialize [] read table k u = unfold tracks find contains in ground arith
tracks-deserialize-serialize ((t, ids) ∷ m) read table k u = ground (
  arith,
  tracks-deserialize-serialize m (deserialize_table t ids read) table k u.1,
  tracks-deserialize_table t table k ids read,
  tracks-cons t table k ids m,
  untracked table k m,
  has_eq t table m,
)

-- Whatever chunk the first map tracks in a table that the second one has too, the second tracks it.
abbrev pub Covered : Trackees → Trackees → Type 0
Covered m other =
    (table k : ℕ) → has table other ≡ true → tracks table k m ≡ true → tracks table k other ≡ true

tracks-found :
    (table k : ℕ) (found : List ℕ) (other : Trackees)
    → find table other ≡ some found
    → tracks table k other ≡ contains k found
unfolding tracks
tracks-found table k found other e = ground (arith, e)

overlap_table-covered :
    (table k : ℕ) (ids : List ℕ) (other : Trackees)
    → overlap_table ids (find table other) ≡ false
    → has table other ≡ true
    → contains k ids ≡ true
    → tracks table k other ≡ true
unfolding overlap_table
overlap_table-covered table k ids other h here c = from (find table other) refl h
  where
    from :
        (o : Option (List ℕ))
        → find table other ≡ o
        → overlap_table ids o ≡ false
        → tracks table k other ≡ true
    from none e h' = ground (arith, find-none-has table other e)
    from (some found) e h' =
        tracks-found table k found other e ∙ is_subset-contains ids found k (ground arith) c

covered-overlap_table :
    (table : ℕ) (ids : List ℕ) (other : Trackees)
    → ((k : ℕ) → has table other ≡ true → contains k ids ≡ true → tracks table k other ≡ true)
    → overlap_table ids (find table other) ≡ false
unfolding overlap_table
covered-overlap_table table ids other c = from (find table other) refl
  where
    from : (o : Option (List ℕ)) → find table other ≡ o → overlap_table ids o ≡ false
    from none e = refl
    from (some found) e =
        let all = contains-is_subset ids found λ k i.
          sym (tracks-found table k found other e) ∙ c k (find-some-has table other found e) i in
        ground arith

-- `has_overlap` is false exactly when the second map tracks every chunk that the first one tracks
-- in a table that both have: sharing chunks never makes it true, lacking one does.
pub has_overlap-Covered :
    (m other : Trackees) → Unique m → (has_overlap m other ≡ false) ↔ Covered m other
unfolding has_overlap
has_overlap-Covered [] other u = (λ h table k here t. ground (arith, tracks-nil table k), λ c. refl)
has_overlap-Covered ((t, ids) ∷ m) other u =
    let (to, from) = has_overlap-Covered m other u.1 in
    (
      λ h table k here c. elim (Bool-cases (t == table)) [
        | inl same ↦ ground (
          arith,
          overlap_table-covered table k ids other,
          tracks-cons t table k ids m,
          ap (λ i. overlap_table ids (find i other)) ((==_iff t table).0 same),
        )
        | inr differs ↦ to (ground arith) table k here (ground (arith, tracks-cons t table k ids m))
      ],
      λ c.
          let first =
            covered-overlap_table t ids other
              λ k here i. c t k here (ground (arith, tracks-cons t t k ids m)) in
          let rest = from λ table k here i.
            c table k here (
              ground (arith, tracks-cons t table k ids m, untracked table k m, has_eq t table m)) in
          ground arith,
    )

-- No map overlaps with itself, however many chunks it tracks.
pub has_overlap_self : (m : Trackees) → Unique m → has_overlap m m ≡ false
has_overlap_self m u = (has_overlap-Covered m m u).1 λ table k here t. t

Unique-deserialize_table :
    (t : ℕ) (ids : List ℕ) (m : Trackees) → Unique m → Unique (deserialize_table t ids m)
unfolding deserialize_table
Unique-deserialize_table t [] m u = u
Unique-deserialize_table t (id ∷ ids) m u =
    Unique-deserialize_table t ids (assign t (add id (trackees_of t m)) m)
      (Unique-assign t (add id (trackees_of t m)) m u)

pub Unique-deserialize :
    (proto : ChunkTracking) (m : Trackees) → Unique m → Unique (deserialize proto m)
unfolding deserialize
Unique-deserialize [] m u = u
Unique-deserialize ((t, ids) ∷ proto) m u =
    Unique-deserialize proto (deserialize_table t ids m) (Unique-deserialize_table t ids m u)
