-- ===== src/Delta/Overlay.antt =====
-- What a transaction shows of its chunk after each change.
use map_api.Prelude.{
  ℕ, ◌≡◌, ◌∙◌, refl, ap, sym, inl, inr, Bool, false, Option, none, some, [], ◌==◌, if◌then◌else◌,
  is_some, Bool-cases, arith,
}
use map_api.Prelude.Checked.{ok}
use map_api.Prelude.Map.{
  Map, find, has, find-assign, has-assign, find-erase, has-erase, find-emplace, has-emplace,
  find-none, has-find, insert_range, find-insert_range, has-insert_range, Unique-insert_range,
}
use map_api.Revision.{Revision}
use map_api.View.Shows.{Items, Overrides, layered}
use map_api.Delta.{Delta, delta_has, delta_get, delta_view, insert, update, remove}
use map_api.View.Dump.{Dumps}
use map_api.Delta.Invariant.{
  IsSeparate, Change, inserting, updating, removing, apply, insert-ok, update-ok, remove-ok,
}

-- The items that a delta has.
abbrev pub delta_items : Delta → Items
delta_items d id = if has id d.updates_ then find id d.updates_ else find id d.insertions_

abbrev pub delta_removes : Delta → ℕ → Bool
delta_removes d id = has id d.removes_

has_is_some : (id : ℕ) (m : Map Revision) → has id m ≡ is_some (find id m)
has_is_some id m = elim (Bool-cases (has id m)) [
  | inl h ↦ let (r, e) = has-find id m h in rw (h, e)
  | inr h ↦ rw (h, find-none id m h)
]

-- A delta whose maps share no id replaces what was inserted or updated, and suppresses what was
-- removed.
pub delta_view-Overrides :
    (d : Delta) → IsSeparate d → Overrides (delta_view d) (delta_items d) (delta_removes d)
unfolding delta_view delta_has delta_get
delta_view-Overrides d s = record {
  has_eq = λ id valid. ground (
    arith,
    has_is_some id d.updates_,
    has_is_some id d.insertions_,
    s.insertions_removes id,
    s.updates_removes id,
  );
  get_eq = λ id r valid e. ground (
    arith,
    has_is_some id d.updates_,
    has_is_some id d.insertions_,
    s.insertions_removes id,
    s.updates_removes id,
  );
  suppresses_eq = λ id valid. refl;
}

-- What `dump` of the delta returns.
pub delta_view-Dumps :
    (d : Delta) (clock : ℕ) → IsSeparate d → Dumps (delta_view d).view (delta_items d) clock clock
unfolding delta_view
delta_view-Dumps d clock s =
    let m = insert_range [] d.insertions_ in
    (
      insert_range m d.updates_,
      refl,
      λ id. ground (
        arith,
        find-insert_range m d.updates_ id,
        find-insert_range [] d.insertions_ id,
        has-insert_range [] d.insertions_ id,
        nothing id,
        s.insertions_updates id,
        find-none id d.insertions_,
        find-none id d.updates_,
      ),
      Unique-insert_range m d.updates_ (Unique-insert_range [] d.insertions_ tt),
    )
  where
    nothing : (id : ℕ) → has {V = Revision} id [] ≡ false
    nothing id = unfold has in refl

has_eq : (j k : ℕ) (m : Map Revision) → j ≡ k → has j m ≡ has k m
has_eq j k m e = ap (λ i. has i m) e

-- What the transaction shows of an item after a change, given what it showed before, and what lies
-- below the delta.
abbrev pub after : Change → Delta → Items → ℕ → Option Revision
after (inserting r) d below id =
    if r.id == id then some r else layered (delta_items d) (delta_removes d) below id
after (updating r) d below id =
    if r.id == id then some r else layered (delta_items d) (delta_removes d) below id
after (removing r) d below id =
    if r.id == id
    then if has id d.insertions_ then below id else none
    else layered (delta_items d) (delta_removes d) below id

insert-layered :
    (r : Revision) (d d' : Delta) (below : Items) (id : ℕ)
    → insert r d ≡ ok d'
    → layered (delta_items d') (delta_removes d') below id ≡ after (inserting r) d below id
insert-layered r d d' below id e =
    let (v, u, m, i, shape) = insert-ok r d d' e in
    ap (λ (x : Delta). layered (delta_items x) (delta_removes x) below id) (sym shape)
    ∙ ground (
      arith,
      find-emplace r.id id r d.insertions_,
      has_eq r.id id d.updates_,
      has_eq r.id id d.insertions_,
      find-none id d.insertions_,
    )

update-layered :
    (r : Revision) (d d' : Delta) (below : Items) (id : ℕ)
    → IsSeparate d
    → update r d ≡ ok d'
    → layered (delta_items d') (delta_removes d') below id ≡ after (updating r) d below id
update-layered r d d' below id s e = elim (update-ok r d d' e).1 [
  | inl (h, shape) ↦
      ap (λ (x : Delta). layered (delta_items x) (delta_removes x) below id) (sym shape)
      ∙ ground (
        arith,
        find-assign r.id id r d.insertions_,
        s.insertions_updates r.id,
        has_eq r.id id d.updates_,
      )
  | inr (h, m, shape) ↦
      ap (λ (x : Delta). layered (delta_items x) (delta_removes x) below id) (sym shape)
      ∙ ground (arith, find-assign r.id id r d.updates_, has-assign r.id id r d.updates_)
]

remove-layered :
    (r : Revision) (d d' : Delta) (below : Items) (id : ℕ)
    → IsSeparate d
    → remove r d ≡ ok d'
    → layered (delta_items d') (delta_removes d') below id ≡ after (removing r) d below id
remove-layered r d d' below id s e = elim (remove-ok r d d' e).1 [
  | inl (h, shape) ↦
      ap (λ (x : Delta). layered (delta_items x) (delta_removes x) below id) (sym shape)
      ∙ ground (
        arith,
        find-erase r.id id d.insertions_,
        find-erase r.id id d.updates_,
        has-erase r.id id d.updates_,
        s.insertions_removes id,
        has_eq r.id id d.insertions_,
      )
  | inr (h, m, shape) ↦
      ap (λ (x : Delta). layered (delta_items x) (delta_removes x) below id) (sym shape)
      ∙ ground (
        arith,
        find-erase r.id id d.updates_,
        has-erase r.id id d.updates_,
        has-emplace r.id id r d.removes_,
        has_eq r.id id d.insertions_,
        find-none id d.insertions_,
      )
]

-- After a change that passes its checks, the transaction shows the revision that it inserted or
-- updated. It shows nothing of an item that it removed, unless it had inserted that item itself:
-- then it shows what lies below. It shows every other item as before.
pub apply-layered :
    (change : Change) (d d' : Delta) (below : Items) (id : ℕ)
    → IsSeparate d
    → apply change d ≡ ok d'
    → layered (delta_items d') (delta_removes d') below id ≡ after change d below id
apply-layered (inserting r) d d' below id s e = insert-layered r d d' below id e
apply-layered (updating r) d d' below id s e = update-layered r d d' below id s e
apply-layered (removing r) d d' below id s e = remove-layered r d d' below id s e
