-- ===== src/Revision/AutoMerge.antt =====
-- What the default merge policy makes of two conflicting updates.
use map_api.Prelude.{
  ℕ, ◌≡◌, ◌∙◌, ◌≤◌, refl, sym, ap, ◌⊎◌, inl, inr, Bool, true, false, ◌||◌, List, [], ◌∷◌,
  Bool-cases, arith,
}
use map_api.Prelude.Checked.{ok}
use map_api.Prelude.IdSet.{size}
use map_api.Trackees.{Trackees, ChunkTracking, deserialize, merge, tracks}
use map_api.Trackees.Merge.{tracks-merge, merge-same, tracks-nil, Unique-merge}
use map_api.Trackees.Compare.{tracks-deserialize-serialize, Unique-deserialize}
use map_api.Revision.{
  Revision, fields_equal, are_all_custom_fields_equal, merged_tracking, merge_metadata,
  merge_innovation, default_auto_merge_policy,
}
use map_api.Revision.Fields.{TableField, field_match}

-- The metadata on which the policy insists.
pub record SameItem (at_hand conflicting : Revision) : Type 0 where
  pub ids : at_hand.id ≡ conflicting.id
  pub insert_times : at_hand.insert_time ≡ conflicting.insert_time
  pub chunk_ids : at_hand.chunk_id ≡ conflicting.chunk_id
  pub at_hand_alive : at_hand.removed ≡ false
  pub conflicting_alive : conflicting.removed ≡ false

merge_metadata_lem :
    (conflicting at_hand : Revision)
    → SameItem at_hand conflicting
    → merge_metadata conflicting at_hand
      ≡ ok (
        true,
        record at_hand {
          chunk_tracking = merged_tracking at_hand.chunk_tracking conflicting.chunk_tracking;
        },
      )
unfolding merge_metadata
merge_metadata_lem conflicting at_hand s =
    ground (arith, s.ids, s.insert_times, s.chunk_ids, s.at_hand_alive, s.conflicting_alive)

-- The chunks that a revision tracks, as `Revision::getTrackedChunks` reads them.
abbrev pub tracked : ChunkTracking → Trackees
tracked proto = deserialize proto []

-- The merged tracking tracks exactly what one of the two sides tracked.
tracks-merged_tracking :
    (tracking conflicting : ChunkTracking) (table k : ℕ)
    → tracks table k (tracked (merged_tracking tracking conflicting))
      ≡ (tracks table k (tracked tracking) || tracks table k (tracked conflicting))
unfolding merged_tracking
tracks-merged_tracking tracking conflicting table k =
    let ours = tracked tracking in
    let theirs = tracked conflicting in
    let u = Unique-deserialize tracking [] tt in
    let both = tracks-merge ours theirs table k (Unique-deserialize conflicting [] tt) in
    let back =
      tracks-deserialize-serialize (merge ours theirs).0 [] table k (Unique-merge ours theirs u) in
    let same = merge-same ours theirs in
    elim (Bool-cases (merge ours theirs).1) [
      | inl c ↦ rw c (back ∙ rw (tracks-nil table k) both)
      | inr c ↦ rw c (ap (tracks table k) (sym (same c)) ∙ both)
    ]

-- Each field matches the one at its place.
abbrev pub AllMatch : List TableField → List TableField → Type 0
AllMatch [] other = Unit {0}
AllMatch (a ∷ fields) [] = ⊥
AllMatch (a ∷ fields) (b ∷ other) = (field_match a b ≡ true) × AllMatch fields other

-- The comparison of fields, which does not run out of range, decides whether all match.
fields_equal_lem :
    (fields other : List TableField)
    → size fields ≤ size other
    → ((fields_equal fields other ≡ ok true) × AllMatch fields other)
      ⊎ ((fields_equal fields other ≡ ok false) × (¬ AllMatch fields other))
unfolding fields_equal
fields_equal_lem [] other h = inl (refl, tt)
fields_equal_lem (a ∷ fields) [] h = absurd (omega (arith, h))
fields_equal_lem (a ∷ fields) (b ∷ other) h = elim (Bool-cases (field_match a b)) [
  | inl hit ↦ elim (fields_equal_lem fields other (omega (arith, h))) [
    | inl (e, all) ↦ inl (rw hit e, (hit, all))
    | inr (e, differ) ↦ inr (rw hit e, λ all. differ all.1)
  ]
  | inr miss ↦ inr (rw miss refl, λ all. differs (sym miss ∙ all.0))
]
  where
    differs : false ≡ true → ⊥
    differs e = cc

-- The merged revision has these fields, and tracks exactly the chunks that one of the two sides
-- tracks; the rest is that of the revision at hand.
abbrev pub MergedWith : List TableField → Revision → Revision → Revision → Type 0
MergedWith fields conflicting at_hand merged =
    (merged.custom_field_values ≡ fields)
    × ((table k : ℕ)
        → tracks table k (tracked merged.chunk_tracking) ≡ (
            tracks table k (tracked at_hand.chunk_tracking)
            || tracks table k (tracked conflicting.chunk_tracking)))
    × (record merged {
      custom_field_values = at_hand.custom_field_values;
      chunk_tracking = at_hand.chunk_tracking;
    }
        ≡ at_hand)

-- The three outcomes, by which sides changed the fields.
abbrev pub IsOutcome : Revision → Revision → Revision → Bool → Revision → Type 0
IsOutcome conflicting original at_hand done merged =
    (AllMatch conflicting.custom_field_values original.custom_field_values
      × (done ≡ true)
      × MergedWith at_hand.custom_field_values conflicting at_hand merged)
    ⊎ (((¬ AllMatch conflicting.custom_field_values original.custom_field_values)
          × AllMatch at_hand.custom_field_values original.custom_field_values
          × (done ≡ true)
          × MergedWith conflicting.custom_field_values conflicting at_hand merged)
        ⊎ ((¬ AllMatch conflicting.custom_field_values original.custom_field_values)
            × (¬ AllMatch at_hand.custom_field_values original.custom_field_values)
            × (done ≡ false)
            × (merged ≡ at_hand)))

abbrev with_merged_tracking : Revision → Revision → Revision
with_merged_tracking conflicting at_hand = record at_hand {
  chunk_tracking = merged_tracking at_hand.chunk_tracking conflicting.chunk_tracking;
}

-- Two revisions of one item that have at most as many fields as the original: the default policy
-- does not abort. It succeeds and keeps the fields at hand if those of the conflicting revision all
-- match the original, succeeds and takes the conflicting fields if only those at hand do, and else
-- fails, with the revision at hand left as it was. On success the merged revision tracks exactly
-- the chunks that one of the two tracks, and the rest is that of the revision at hand.
pub default_auto_merge_policy_lem :
    (conflicting original at_hand : Revision)
    → SameItem at_hand conflicting
    → size conflicting.custom_field_values ≤ size original.custom_field_values
    → size at_hand.custom_field_values ≤ size original.custom_field_values
    → (done : Bool) × (merged : Revision) × (default_auto_merge_policy conflicting original at_hand
        ≡ ok (done, merged))
      × IsOutcome conflicting original at_hand done merged
unfolding default_auto_merge_policy merge_innovation are_all_custom_fields_equal
default_auto_merge_policy_lem conflicting original at_hand s c a =
    elim (fields_equal_lem conflicting.custom_field_values original.custom_field_values c) [
      | inl (e, all) ↦ (
        true,
        with_merged_tracking conflicting at_hand,
        rw e (merge_metadata_lem conflicting at_hand s),
        inl (all, refl, (refl, tracking, refl)),
      )
      | inr (e, differ) ↦
          elim (fields_equal_lem at_hand.custom_field_values original.custom_field_values a) [
            | inl (f, all) ↦ (
              true,
              with_merged_tracking conflicting taken,
              rw (e, f) (merge_metadata_lem conflicting taken taken-SameItem),
              inr (inl (differ, all, refl, (refl, tracking, refl))),
            )
            | inr (f, none_match) ↦
                (false, at_hand, rw (e, f) refl, inr (inr (differ, none_match, refl, refl)))
          ]
    ]
  where
    taken : Revision
    taken = record at_hand { custom_field_values = conflicting.custom_field_values }

    taken-SameItem : SameItem taken conflicting
    taken-SameItem = record {
      ids = s.ids;
      insert_times = s.insert_times;
      chunk_ids = s.chunk_ids;
      at_hand_alive = s.at_hand_alive;
      conflicting_alive = s.conflicting_alive;
    }

    tracking :
        (table k : ℕ)
        → tracks table k
            (tracked (merged_tracking at_hand.chunk_tracking conflicting.chunk_tracking))
          ≡ (tracks table k (tracked at_hand.chunk_tracking)
              || tracks table k (tracked conflicting.chunk_tracking))
    tracking table k =
        tracks-merged_tracking at_hand.chunk_tracking conflicting.chunk_tracking table k
