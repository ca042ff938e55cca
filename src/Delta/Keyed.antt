-- ===== src/Delta/Keyed.antt =====
-- Maps from ids to revisions with those ids, as a delta holds three of.
use map_api.Prelude.{
  ℕ, ◌≡◌, ◌∙◌, ap, sym, inl, inr, true, false, Option, none, some, [], ◌==◌, Bool-cases, arith,
  ==_iff,
}
use map_api.Prelude.Map.{
  Map, Unique, find, has, assign, erase, emplace, find-assign, find-erase, find-emplace,
  Unique-assign, Unique-erase, Unique-emplace,
}
use map_api.Revision.{Revision, is_valid_id}

-- Each map has its keys once, under the valid ids of their revisions.
pub record IsKeyed (m : Map Revision) : Type 0 where
  pub unique : Unique m
  pub key : (id : ℕ) (r : Revision) → find id m ≡ some r → (r.id ≡ id) × (is_valid_id id ≡ true)

pub IsKeyed-empty : IsKeyed []
unfolding find
IsKeyed-empty = record { unique = tt; key = λ id r e. cc }

valid_eq : (a b : ℕ) → (a == b) ≡ true → is_valid_id a ≡ true → is_valid_id b ≡ true
valid_eq a b e v = ground arith

pub assign-IsKeyed :
    (r : Revision) (m : Map Revision)
    → IsKeyed m
    → is_valid_id r.id ≡ true
    → IsKeyed (assign r.id r m)
assign-IsKeyed r m k v = record {
  unique = Unique-assign r.id r m k.unique;
  key = λ id q e. elim (Bool-cases (r.id == id)) [
    | inl hit ↦
        let same : r ≡ q = ground (arith, find-assign r.id id r m) in
        (ap (λ (x : Revision). x.id) (sym same) ∙ (==_iff r.id id).0 hit, valid_eq r.id id hit v)
    | inr miss ↦ k.key id q (ground (arith, find-assign r.id id r m))
  ];
}

pub emplace-IsKeyed :
    (r : Revision) (m : Map Revision)
    → IsKeyed m
    → is_valid_id r.id ≡ true
    → IsKeyed (emplace r.id r m)
emplace-IsKeyed r m k v = record {
  unique = Unique-emplace r.id r m k.unique;
  key = λ id q e. elim (Bool-cases (has id m)) [
    | inl old ↦ k.key id q (ground (arith, find-emplace r.id id r m))
    | inr new ↦ elim (Bool-cases (r.id == id)) [
      | inl hit ↦
          let same : r ≡ q = ground (arith, find-emplace r.id id r m) in
          (ap (λ (x : Revision). x.id) (sym same) ∙ (==_iff r.id id).0 hit, valid_eq r.id id hit v)
      | inr miss ↦ cc (the_none id q new miss e)
    ]
  ];
}
  where
    the_none :
        (id : ℕ) (q : Revision)
        → has id m ≡ false
        → (r.id == id) ≡ false
        → find id (emplace r.id r m) ≡ some q
        → ◌≡◌ {A = Option Revision} none (some q)
    the_none id q new miss e = ground (arith, find-emplace r.id id r m)

pub erase-IsKeyed : (id : ℕ) (m : Map Revision) → IsKeyed m → IsKeyed (erase id m)
erase-IsKeyed id m k = record {
  unique = Unique-erase id m k.unique;
  key = λ j q e. k.key j q (ground (arith, find-erase id j m));
}
