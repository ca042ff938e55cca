-- ===== src/Spatial/Announce.antt =====
-- What a search of space finds after an announcement.
use map_api.Prelude.{
  ℕ, ◌≡◌, ◌∙◌, refl, sym, ap, inl, inr, Bool, true, false, Option, some, List, [], ◌∷◌, ◌==◌, ◌&&◌,
  ◌||◌, if◌then◌else◌, Bool-cases, ==_iff, arith,
}
use map_api.Prelude.Checked.{Checked, ok, ◌>>=◌}
use map_api.Prelude.IdSet.{contains}
use map_api.Spatial.{DoubleOps, BoundingBox, SpatialIndex}
use map_api.Spatial.Cells.{get_cells_in_bounding_box}
use map_api.Spatial.CellData.{SpatialIndexCellData, add_if_not_present, add_chunk_id_if_not_present}
use map_api.Spatial.Differences.{contains-add_if_not_present}
use map_api.Chord.Store.{Store, StoreLaws}
use map_api.Spatial.Reads.{
  map_data, has_chunk, parse_content, data_at, AllPresent, is_in_cells, access_lem, seek_all_lem,
}
use map_api.Spatial.Index.{
  CellCodec, added, write_back, change_cell, change_all, seek_all, announce_chunk, seek_chunks,
}

-- Do the lists share a cell?
abbrev pub overlap : List ℕ → List ℕ → Bool
overlap announced [] = false
overlap announced (cell ∷ sought) = contains cell announced || overlap announced sought

add_twice :
    (id : ℕ) (ids : List ℕ)
    → add_if_not_present id (add_if_not_present id ids) ≡ add_if_not_present id ids
unfolding add_if_not_present
add_twice id [] = ground arith
add_twice id (j ∷ ids) = elim (Bool-cases (id == j)) [
  | inl hit ↦ rw hit (rw hit refl)
  | inr miss ↦ rw miss (rw miss (ap (λ l. j ∷ l) (add_twice id ids)))
]

module _ {S : Type 0} (store : Store S) (codec : CellCodec) (laws : StoreLaws S store)
    (reads_back : (d : SpatialIndexCellData)
      → codec.parse_from_string (codec.serialize_as_string d) ≡ some d) where
  -- What changes of cells leave: a settled state with the changed data in these cells.
  abbrev Changed : (SpatialIndexCellData → SpatialIndexCellData) → List ℕ → S → S → Type 0
  Changed f cells s s' =
      laws.IsSettled s'
      × ((j : ℕ)
          → data_at store codec laws s' j ≡ (
              if contains j cells
              then map_data f (data_at store codec laws s j)
              else data_at store codec laws s j))

  parse_if :
      (b : Bool) (d : SpatialIndexCellData) (content : Option (List ℕ))
      → parse_content store codec laws (if b then some (codec.serialize_as_string d) else content)
        ≡ (if b then some d else parse_content store codec laws content)
  parse_if true d content = reads_back d
  parse_if false d content = refl

  change_cell_lem :
      (f : SpatialIndexCellData → SpatialIndexCellData) (cell : ℕ) (s : S)
      (d : SpatialIndexCellData)
      → laws.IsSettled s
      → data_at store codec laws s cell ≡ some d
      → (s' : S) × (change_cell store codec f cell s ≡ ok s')
        × laws.IsSettled s'
        × ((j : ℕ)
            → data_at store codec laws s' j
              ≡ (if cell == j then some (f d) else data_at store codec laws s j))
  unfolding change_cell write_back added
  change_cell_lem f cell s d settled h =
      let (s', written, settled', content') =
        laws.add_data-content cell (codec.serialize_as_string (f d)) s settled in
      (
        s',
        ap
              (λ (o : Checked (SpatialIndexCellData × S)).
                o >>= λ (q, t). write_back store codec cell (f q) t)
              (access_lem store codec laws cell s d settled h)
            ∙ ap (λ (o : Checked (Bool × S)). o >>= added store codec) written,
        settled',
        λ j.
            ap (parse_content store codec laws) (content' j)
            ∙ parse_if (cell == j) (f d) (laws.content s j),
      )

  present_after :
      (s s' : S) (cells : List ℕ)
      → ((j : ℕ) (d : SpatialIndexCellData)
          → data_at store codec laws s j ≡ some d
          → (d' : SpatialIndexCellData) × (data_at store codec laws s' j ≡ some d'))
      → AllPresent store codec laws s cells
      → AllPresent store codec laws s' cells
  present_after s s' [] keeps present = tt
  present_after s s' (cell ∷ cells) keeps ((d, e), present) =
      (keeps cell d e, present_after s s' cells keeps present)

  keeps_if :
      (b : Bool) (d e : SpatialIndexCellData) (before after : Option SpatialIndexCellData)
      → after ≡ (if b then some e else before)
      → before ≡ some d
      → (d' : SpatialIndexCellData) × (after ≡ some d')
  keeps_if true d e before after h k = (e, h)
  keeps_if false d e before after h k = (d, h ∙ k)

  keeps_mapped :
      (f : SpatialIndexCellData → SpatialIndexCellData) (b : Bool) (d : SpatialIndexCellData)
      (before after : Option SpatialIndexCellData)
      → after ≡ (if b then map_data f before else before)
      → before ≡ some d
      → (d' : SpatialIndexCellData) × (after ≡ some d')
  keeps_mapped f true d before after h k = (f d, h ∙ ap (map_data f) k)
  keeps_mapped f false d before after h k = (d, h ∙ k)

  change_all_lem :
      (f : SpatialIndexCellData → SpatialIndexCellData) (cells : List ℕ) (s : S)
      → ((d : SpatialIndexCellData) → f (f d) ≡ f d)
      → laws.IsSettled s
      → AllPresent store codec laws s cells
      → (s' : S) × (change_all store codec f cells s ≡ ok s') × Changed f cells s s'
  unfolding change_all contains
  change_all_lem f [] s twice settled present = (s, refl, (settled, λ j. refl))
  change_all_lem f (cell ∷ cells) s twice settled ((d, e), present) =
      let (s1, h1, settled1, first) = change_cell_lem f cell s d settled e in
      let present1 =
        present_after s s1 cells
          (λ j q k.
            keeps_if (cell == j) q (f d) (data_at store codec laws s j)
              (data_at store codec laws s1 j) (first j) k)
          present in
      let (s', h2, (settled', rest)) = change_all_lem f cells s1 twice settled1 present1 in
      (
        s',
        ap (λ (o : Checked S). o >>= change_all store codec f cells) h1 ∙ h2,
        (
          settled',
          λ j.
              both j (cell == j) (contains j cells) (data_at store codec laws s1 j)
                (data_at store codec laws s' j) refl (first j) (rest j),
        ),
      )
    where
      mapped : (j : ℕ) → (cell == j) ≡ true → some (f d) ≡ map_data f (data_at store codec laws s j)
      mapped j hit =
          sym (ap (map_data f) (sym (ap (data_at store codec laws s) ((==_iff cell j).0 hit)) ∙ e))

      both :
          (j : ℕ) (here there : Bool) (middle after : Option SpatialIndexCellData)
          → (cell == j) ≡ here
          → middle ≡ (if here then some (f d) else data_at store codec laws s j)
          → after ≡ (if there then map_data f middle else middle)
          → after ≡ (
              if (if here then true else there)
              then map_data f (data_at store codec laws s j)
              else data_at store codec laws s j)
      both j true true middle after hit m a =
          a ∙ ap (map_data f) m ∙ ap some (twice d) ∙ mapped j hit
      both j true false middle after hit m a = a ∙ m ∙ mapped j hit
      both j false true middle after hit m a = a ∙ ap (map_data f) m
      both j false false middle after hit m a = a ∙ m

  is_in_cells-Changed :
      (id k : ℕ) (announced sought : List ℕ) (s s' : S)
      → AllPresent store codec laws s sought
      → Changed (add_chunk_id_if_not_present id) announced s s'
      → is_in_cells store codec laws s' k sought
        ≡ (is_in_cells store codec laws s k sought || (id == k && overlap announced sought))
  is_in_cells-Changed id k announced [] s s' present changed = ground arith
  is_in_cells-Changed id k announced (cell ∷ sought) s s' ((d, e), present) changed = ground (
    arith,
    is_in_cells-Changed id k announced sought s s' present changed,
    here (contains cell announced) (data_at store codec laws s cell)
        (data_at store codec laws s' cell) d (changed.1 cell) e,
  )
    where
      added_chunk :
          (q : SpatialIndexCellData)
          → has_chunk k (some (add_chunk_id_if_not_present id q))
            ≡ (has_chunk k (some q) || (id == k && true))
      added_chunk q =
          unfold add_chunk_id_if_not_present in
          ground (arith, contains-add_if_not_present k id q.chunk_ids)

      no_overlap : (a b : Bool) → a ≡ (a || (b && false))
      no_overlap a b = ground arith

      here :
          (b : Bool) (before after : Option SpatialIndexCellData) (q : SpatialIndexCellData)
          → after ≡ (if b then map_data (add_chunk_id_if_not_present id) before else before)
          → before ≡ some q
          → has_chunk k after ≡ (has_chunk k before || (id == k && b))
      here true before after q h k' =
          ap (has_chunk k) (h ∙ ap (map_data (add_chunk_id_if_not_present id)) k')
          ∙ added_chunk q
          ∙ sym (ap (λ o. has_chunk k o || (id == k && true)) k')
      here false before after q h k' =
          ap (has_chunk k) h ∙ no_overlap (has_chunk k before) (id == k)

  -- On a settled index whose cells in the two boxes were created, and with messages that are
  -- parsed as they were written, `announceChunk` succeeds, and `seekChunks` finds after it the
  -- chunks that it found before and, if the two boxes share a cell, the chunk that was announced.
  pub seek_chunks-announce_chunk :
      {D : Type 0} (ops : DoubleOps D) (index : SpatialIndex D) (meanwhile : S → S)
      (announced_box sought_box : BoundingBox D) (announced sought : List ℕ) (id : ℕ) (s : S)
      → get_cells_in_bounding_box ops index announced_box ≡ ok announced
      → get_cells_in_bounding_box ops index sought_box ≡ ok sought
      → laws.IsSettled s
      → AllPresent store codec laws s announced
      → AllPresent store codec laws s sought
      → (s' : S) × (before after : List ℕ) × (announce_chunk store codec ops index id announced_box
            s
          ≡ ok s')
        × (seek_chunks store codec ops index meanwhile sought_box [] s ≡ ok (before, s))
        × (seek_chunks store codec ops index meanwhile sought_box [] s' ≡ ok (after, s'))
        × laws.IsSettled s'
        × ((k : ℕ)
            → contains k after ≡ (contains k before || (id == k && overlap announced sought)))
  unfolding announce_chunk seek_chunks contains
  seek_chunks-announce_chunk ops index meanwhile announced_box sought_box announced sought id s h h'
        settled present present' =
      let add_chunk = add_chunk_id_if_not_present id in
      let (s', done, (settled', changed)) =
        change_all_lem add_chunk announced s
          (λ d.
            unfold add_chunk_id_if_not_present in
            ap (λ ids. record d { chunk_ids = ids }) (add_twice id d.chunk_ids))
          settled present in
      let still =
        present_after s s' sought
          (λ j q k.
            keeps_mapped add_chunk (contains j announced) q (data_at store codec laws s j)
              (data_at store codec laws s' j) (changed j) k)
          present' in
      let (before, found, all) =
        seek_all_lem store codec laws meanwhile sought [] s settled present' in
      let (after, found', all') =
        seek_all_lem store codec laws meanwhile sought [] s' settled' still in
      (
        s',
        before,
        after,
        ap (λ (o : Checked (List ℕ)). o >>= λ cells. change_all store codec add_chunk cells s) h
            ∙ done,
        ap (λ (o : Checked (List ℕ)). o >>= λ cells. seek_all store codec meanwhile cells [] s) h'
            ∙ found,
        ap (λ (o : Checked (List ℕ)). o >>= λ cells. seek_all store codec meanwhile cells [] s') h'
            ∙ found',
        settled',
        λ k.
            all' k
            ∙ is_in_cells-Changed id k announced sought s s' present' (settled', changed)
            ∙ sym (ap (λ b. b || (id == k && overlap announced sought)) (all k)),
      )
