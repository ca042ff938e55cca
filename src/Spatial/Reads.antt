-- ===== src/Spatial/Reads.antt =====
-- Reading cells that were created, on a settled index.
use map_api.Prelude.{
  ℕ, ◌≡◌, ◌∙◌, refl, ap, Bool, false, Option, none, some, List, [], ◌∷◌, ◌||◌, arith,
}
use map_api.Prelude.Checked.{Checked, ok, ◌>>=◌}
use map_api.Prelude.IdSet.{contains, add, contains-add}
use map_api.Spatial.CellData.{SpatialIndexCellData, emplace_ids, add_chunk_ids}
use map_api.Chord.Store.{Store, StoreLaws}
use map_api.Spatial.Index.{CellCodec, parsed, access, retry, access_patiently, seek_all}

abbrev pub map_data :
    (SpatialIndexCellData → SpatialIndexCellData)
    → Option SpatialIndexCellData
    → Option SpatialIndexCellData
map_data f none = none
map_data f (some d) = some (f d)

abbrev pub has_chunk : ℕ → Option SpatialIndexCellData → Bool
has_chunk k none = false
has_chunk k (some d) = contains k d.chunk_ids

contains-emplace_ids :
    (k : ℕ) (ids result : List ℕ)
    → contains k (emplace_ids ids result) ≡ (contains k result || contains k ids)
unfolding emplace_ids contains
contains-emplace_ids k [] result = ground arith
contains-emplace_ids k (id ∷ ids) result =
    ground (arith, contains-emplace_ids k ids (add id result), contains-add id k result)

module _ {S : Type 0} (store : Store S) (codec : CellCodec) (laws : StoreLaws S store) where
  -- What is parsed of the content of a cell.
  abbrev pub parse_content : Option (List ℕ) → Option SpatialIndexCellData
  parse_content none = none
  parse_content (some string) = codec.parse_from_string string

  abbrev pub data_at : S → ℕ → Option SpatialIndexCellData
  data_at s position = parse_content (laws.content s position)

  -- Every cell of the list was created.
  abbrev pub AllPresent : S → List ℕ → Type 0
  AllPresent s [] = Unit {0}
  AllPresent s (cell ∷ cells) =
      ((d : SpatialIndexCellData) × (data_at s cell ≡ some d)) × AllPresent s cells

  -- Is the chunk in one of the cells?
  abbrev pub is_in_cells : S → ℕ → List ℕ → Bool
  is_in_cells s k [] = false
  is_in_cells s k (cell ∷ cells) = has_chunk k (data_at s cell) || is_in_cells s k cells

  parsed_lem :
      (content : Option (List ℕ)) (s : S) (d : SpatialIndexCellData)
      → parse_content content ≡ some d
      → parsed store codec (content, s) ≡ ok (d, s)
  unfolding parsed
  parsed_lem none s d h = cc
  parsed_lem (some string) s d h = rw h refl

  pub access_lem :
      (position : ℕ) (s : S) (d : SpatialIndexCellData)
      → laws.IsSettled s
      → data_at s position ≡ some d
      → access store codec position s ≡ ok (d, s)
  unfolding access
  access_lem position s d settled h =
      ap (λ (o : Checked (Option (List ℕ) × S)). o >>= parsed store codec)
        (laws.retrieve_data-content position s settled)
      ∙ parsed_lem (laws.content s position) s d h

  retry_lem :
      (meanwhile : S → S) (position : ℕ) (content : Option (List ℕ)) (s : S)
      (d : SpatialIndexCellData)
      → parse_content content ≡ some d
      → retry store codec meanwhile position (content, s) ≡ ok (d, s)
  unfolding retry
  retry_lem meanwhile position none s d h = cc
  retry_lem meanwhile position (some string) s d h = parsed_lem (some string) s d h

  access_patiently_lem :
      (meanwhile : S → S) (position : ℕ) (s : S) (d : SpatialIndexCellData)
      → laws.IsSettled s
      → data_at s position ≡ some d
      → access_patiently store codec meanwhile position s ≡ ok (d, s)
  unfolding access_patiently
  access_patiently_lem meanwhile position s d settled h =
      ap (λ (o : Checked (Option (List ℕ) × S)). o >>= retry store codec meanwhile position)
        (laws.retrieve_data-content position s settled)
      ∙ retry_lem meanwhile position (laws.content s position) s d h

  pub seek_all_lem :
      (meanwhile : S → S) (cells chunk_ids : List ℕ) (s : S)
      → laws.IsSettled s
      → AllPresent s cells
      → (found : List ℕ) × (seek_all store codec meanwhile cells chunk_ids s ≡ ok (found, s))
        × ((k : ℕ) → contains k found ≡ (contains k chunk_ids || is_in_cells s k cells))
  unfolding seek_all add_chunk_ids
  seek_all_lem meanwhile [] chunk_ids s settled present = (chunk_ids, refl, λ k. ground arith)
  seek_all_lem meanwhile (cell ∷ cells) chunk_ids s settled ((d, e), present) =
      let (found, h, all) =
        seek_all_lem meanwhile cells (emplace_ids d.chunk_ids chunk_ids) s settled present in
      (
        found,
        ap
              (λ (o : Checked (SpatialIndexCellData × S)). o >>= λ (q, s').
                seek_all store codec meanwhile cells (add_chunk_ids q chunk_ids) s')
              (access_patiently_lem meanwhile cell s d settled e)
            ∙ h,
        λ k. ground (
          arith,
          all k,
          contains-emplace_ids k d.chunk_ids chunk_ids,
          ap (has_chunk k) {x = data_at s cell} {y = some d} e,
        ),
      )
