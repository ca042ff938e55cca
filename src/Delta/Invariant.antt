-- ===== src/Delta/Invariant.antt =====
-- The invariant of a delta: its three maps never share an id.
use mathlib.Core.Path.{subst}
use map_api.Prelude.{
  ℕ, ◌≡◌, refl, ap, ◌⊎◌, inl, inr, true, false, List, [], ◌∷◌, ◌&&◌, Bool-cases, arith,
}
use map_api.Prelude.Checked.{Checked, ok, ◌>>=◌, >>=-eq-ok}
use map_api.Prelude.Map.{Map, has, assign, erase, emplace, has-assign, has-erase, has-emplace}
use map_api.Revision.{Revision, is_valid_id}
use map_api.Delta.{Delta, empty, insert, update, remove}
use map_api.Delta.Keyed.{IsKeyed, IsKeyed-empty, assign-IsKeyed, emplace-IsKeyed, erase-IsKeyed}

-- "This class guarantees that ids are unique across all maps".
pub record IsSeparate (d : Delta) : Type 0 where
  pub insertions : IsKeyed d.insertions_
  pub updates : IsKeyed d.updates_
  pub removes : IsKeyed d.removes_
  pub insertions_updates : (id : ℕ) → (has id d.insertions_ && has id d.updates_) ≡ false
  pub insertions_removes : (id : ℕ) → (has id d.insertions_ && has id d.removes_) ≡ false
  pub updates_removes : (id : ℕ) → (has id d.updates_ && has id d.removes_) ≡ false

pub empty-IsSeparate : IsSeparate empty
unfolding has
empty-IsSeparate = record {
  insertions = IsKeyed-empty;
  updates = IsKeyed-empty;
  removes = IsKeyed-empty;
  insertions_updates = λ id. refl;
  insertions_removes = λ id. refl;
  updates_removes = λ id. refl;
}

-- What a transaction may do to an item.
pub data Change : Type 0 where
  inserting updating removing : Revision → Change

abbrev pub apply : Change → Delta → Checked Delta
apply (inserting r) d = insert r d
apply (updating r) d = update r d
apply (removing r) d = remove r d

abbrev pub run : List Change → Delta → Checked Delta
run [] d = ok d
run (change ∷ changes) d = apply change d >>= λ d'. run changes d'

has_eq : (j k : ℕ) (m : Map Revision) → j ≡ k → has j m ≡ has k m
has_eq j k m e = ap (λ i. has i m) e

-- A check of the code, and what it leaves.
pub insert-ok :
    (r : Revision) (d d' : Delta)
    → insert r d ≡ ok d'
    → (is_valid_id r.id ≡ true)
      × (has r.id d.updates_ ≡ false)
      × (has r.id d.removes_ ≡ false)
      × (has r.id d.insertions_ ≡ false)
      × (record d { insertions_ = emplace r.id r d.insertions_ } ≡ d')
unfolding insert
insert-ok r d d' e = ground arith

pub update-ok :
    (r : Revision) (d d' : Delta)
    → update r d ≡ ok d'
    → (is_valid_id r.id ≡ true)
      × (((has r.id d.insertions_ ≡ true)
            × (record d { insertions_ = assign r.id r d.insertions_ } ≡ d'))
          ⊎ ((has r.id d.insertions_ ≡ false)
              × (has r.id d.removes_ ≡ false)
              × (record d { updates_ = assign r.id r d.updates_ } ≡ d')))
unfolding update
update-ok r d d' e = (
  ground arith,
  elim (Bool-cases (has r.id d.insertions_)) [
    | inl h ↦ inl (h, ground arith)
    | inr h ↦ inr (h, ground arith, ground arith)
  ],
)

pub remove-ok :
    (r : Revision) (d d' : Delta)
    → remove r d ≡ ok d'
    → (is_valid_id r.id ≡ true)
      × (((has r.id d.insertions_ ≡ true)
            × (record d { insertions_ = erase r.id d.insertions_; updates_ = erase r.id d.updates_ }
                ≡ d'))
          ⊎ ((has r.id d.insertions_ ≡ false)
              × (has r.id d.removes_ ≡ false)
              × (record d { updates_ = erase r.id d.updates_; removes_ = emplace r.id r d.removes_ }
                  ≡ d')))
unfolding remove
remove-ok r d d' e = (
  ground arith,
  elim (Bool-cases (has r.id d.insertions_)) [
    | inl h ↦ inl (h, ground arith)
    | inr h ↦ inr (h, ground arith, ground arith)
  ],
)

insert-IsSeparate :
    (r : Revision) (d d' : Delta) → IsSeparate d → insert r d ≡ ok d' → IsSeparate d'
insert-IsSeparate r d d' s e =
    let (v, u, m, i, shape) = insert-ok r d d' e in
    subst IsSeparate shape (record {
      insertions = emplace-IsKeyed r d.insertions_ s.insertions v;
      updates = s.updates;
      removes = s.removes;
      insertions_updates = λ id. ground (
        arith,
        has-emplace r.id id r d.insertions_,
        s.insertions_updates id,
        has_eq r.id id d.updates_,
      );
      insertions_removes = λ id. ground (
        arith,
        has-emplace r.id id r d.insertions_,
        s.insertions_removes id,
        has_eq r.id id d.removes_,
      );
      updates_removes = s.updates_removes;
    })

update-IsSeparate :
    (r : Revision) (d d' : Delta) → IsSeparate d → update r d ≡ ok d' → IsSeparate d'
update-IsSeparate r d d' s e = elim (update-ok r d d' e).1 [
  | inl (h, shape) ↦ subst IsSeparate shape (record {
    insertions = assign-IsKeyed r d.insertions_ s.insertions (update-ok r d d' e).0;
    updates = s.updates;
    removes = s.removes;
    insertions_updates = λ id. ground (
      arith,
      has-assign r.id id r d.insertions_,
      s.insertions_updates id,
      has_eq r.id id d.insertions_,
    );
    insertions_removes = λ id. ground (
      arith,
      has-assign r.id id r d.insertions_,
      s.insertions_removes id,
      has_eq r.id id d.insertions_,
    );
    updates_removes = s.updates_removes;
  })
  | inr (h, m, shape) ↦ subst IsSeparate shape (record {
    insertions = s.insertions;
    updates = assign-IsKeyed r d.updates_ s.updates (update-ok r d d' e).0;
    removes = s.removes;
    insertions_updates = λ id. ground (
      arith,
      has-assign r.id id r d.updates_,
      s.insertions_updates id,
      has_eq r.id id d.insertions_,
    );
    insertions_removes = s.insertions_removes;
    updates_removes = λ id.
        ground
          (arith, has-assign r.id id r d.updates_, s.updates_removes id, has_eq r.id id d.removes_);
  })
]

remove-IsSeparate :
    (r : Revision) (d d' : Delta) → IsSeparate d → remove r d ≡ ok d' → IsSeparate d'
remove-IsSeparate r d d' s e = elim (remove-ok r d d' e).1 [
  | inl (h, shape) ↦ subst IsSeparate shape (record {
    insertions = erase-IsKeyed r.id d.insertions_ s.insertions;
    updates = erase-IsKeyed r.id d.updates_ s.updates;
    removes = s.removes;
    insertions_updates = λ id. ground (
      arith,
      has-erase r.id id d.insertions_,
      has-erase r.id id d.updates_,
      s.insertions_updates id,
    );
    insertions_removes =
        λ id. ground (arith, has-erase r.id id d.insertions_, s.insertions_removes id);
    updates_removes = λ id. ground (arith, has-erase r.id id d.updates_, s.updates_removes id);
  })
  | inr (h, m, shape) ↦ subst IsSeparate shape (record {
    insertions = s.insertions;
    updates = erase-IsKeyed r.id d.updates_ s.updates;
    removes = emplace-IsKeyed r d.removes_ s.removes (remove-ok r d d' e).0;
    insertions_updates =
        λ id. ground (arith, has-erase r.id id d.updates_, s.insertions_updates id);
    insertions_removes = λ id. ground (
      arith,
      has-emplace r.id id r d.removes_,
      s.insertions_removes id,
      has_eq r.id id d.insertions_,
    );
    updates_removes = λ id. ground (
      arith,
      has-erase r.id id d.updates_,
      has-emplace r.id id r d.removes_,
      s.updates_removes id,
    );
  })
]

-- Each change that passes the checks keeps the ids unique across the maps.
pub apply-IsSeparate :
    (change : Change) (d d' : Delta) → IsSeparate d → apply change d ≡ ok d' → IsSeparate d'
apply-IsSeparate (inserting r) d d' s e = insert-IsSeparate r d d' s e
apply-IsSeparate (updating r) d d' s e = update-IsSeparate r d d' s e
apply-IsSeparate (removing r) d d' s e = remove-IsSeparate r d d' s e

-- If no two maps of a delta share an id, none do after any sequence of changes that pass their
-- checks, and each map keeps its keys once, under the valid ids of their revisions.
pub run-IsSeparate :
    (changes : List Change) (d d' : Delta) → IsSeparate d → run changes d ≡ ok d' → IsSeparate d'
run-IsSeparate [] d d' s e = subst IsSeparate (ground arith) s
run-IsSeparate (change ∷ changes) d d' s e =
    let (d1, e1, e2) = >>=-eq-ok (apply change d) (run changes) e in
    run-IsSeparate changes d1 d' (apply-IsSeparate change d d1 s e1) e2
