-- ===== src/Tests/Trackees.antt =====
-- Tracked chunks of small items.
use map_api.Prelude.{ℕ, ◌≡◌, ◌≢◌, ◌↔◌, ◌||◌, refl, true, false, [], ◌∷◌}
use map_api.Trackees.{Trackees, tracks, deserialize, serialize, has_overlap}
use map_api.Trackees.Compare.{tracks-deserialize-serialize, has_overlap-Covered, Covered}

abbrev some_trackees : Trackees
some_trackees = (1, 5 ∷ []) ∷ (2, 6 ∷ 7 ∷ []) ∷ []

abbrev other_trackees : Trackees
other_trackees = (2, 7 ∷ 8 ∷ []) ∷ []

tracks-deserialize-serialize_example :
    tracks 2 6 (deserialize (serialize some_trackees) other_trackees)
    ≡ (tracks 2 6 other_trackees || tracks 2 6 some_trackees)
unfolding map_api.Prelude.Map.has
tracks-deserialize-serialize_example =
    tracks-deserialize-serialize some_trackees other_trackees 2 6 (refl, (refl, tt))

has_overlap-Covered_example :
    (has_overlap some_trackees other_trackees ≡ false) ↔ Covered some_trackees other_trackees
unfolding map_api.Prelude.Map.has
has_overlap-Covered_example = has_overlap-Covered some_trackees other_trackees (refl, (refl, tt))
