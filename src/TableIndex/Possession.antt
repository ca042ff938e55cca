-- ===== src/TableIndex/Possession.antt =====
-- Announcing and renouncing the possession of a chunk, and what a search for its holders finds.
use map_api.Prelude.{
  ℕ, zero, suc, ◌≡◌, ◌∙◌, refl, ap, Bool, true, false, Option, none, some, List, [], ◌∷◌, ◌++◌, ltb,
  ◌==◌, ◌||◌, if◌then◌else◌, arith,
}
use map_api.Prelude.Checked.{Checked, ok, ◌>>=◌}
use map_api.Prelude.IdSet.{size, contains, add, contains-add, contains-snoc, size-snoc}
use map_api.Chord.Store.{Store, StoreLaws}
use map_api.TableIndex.{
  PeersCodec, insert_peers, delete_first, or_again, retrieve_within, seek_peers, checked_add,
  write_peers, peers_or_none, announce_posession, renounce_posession,
}

contains-insert_peers :
    (k : ℕ) (found peers : List ℕ)
    → contains k (insert_peers found peers) ≡ (contains k peers || contains k found)
unfolding insert_peers contains
contains-insert_peers k [] peers = ground arith
contains-insert_peers k (peer ∷ found) peers =
    ground (arith, contains-insert_peers k found (add peer peers), contains-add peer k peers)

delete_first-snoc :
    (self : ℕ) (peers : List ℕ)
    → contains self peers ≡ false
    → delete_first self (peers ++ self ∷ []) ≡ peers
unfolding delete_first contains
delete_first-snoc self [] h = ground arith
delete_first-snoc self (peer ∷ peers) h = ground (arith, delete_first-snoc self peers)

module _ {S : Type 0} (store : Store S) (codec : PeersCodec) (laws : StoreLaws S store)
    (reads_back : (peers : List ℕ)
      → codec.parse_peers (codec.serialize_peers peers) ≡ some peers) where
  abbrev parse_content : Option (List ℕ) → Option (List ℕ)
  parse_content none = some []
  parse_content (some peers_string) = codec.parse_peers peers_string

  -- The peers that are listed as holders of the chunk; an absent list is empty.
  abbrev pub holders : S → ℕ → Option (List ℕ)
  holders s chunk_id = parse_content (laws.content s chunk_id)

  parse_if :
      (b : Bool) (peers : List ℕ) (content : Option (List ℕ))
      → parse_content (if b then some (codec.serialize_peers peers) else content)
        ≡ (if b then some peers else parse_content content)
  parse_if true peers content = reads_back peers
  parse_if false peers content = refl

  -- The state after a list was written.
  abbrev Wrote : ℕ → List ℕ → S → S → Type 0
  Wrote chunk_id peers s s' =
      laws.IsSettled s'
      × (laws.content s' chunk_id ≡ some (codec.serialize_peers peers))
      × ((k : ℕ) → holders s' k ≡ (if chunk_id == k then some peers else holders s k))

  write_peers_lem :
      (chunk_id : ℕ) (peers : List ℕ) (s : S)
      → laws.IsSettled s
      → (s' : S) × (write_peers store codec chunk_id peers s ≡ ok s') × Wrote chunk_id peers s s'
  unfolding write_peers checked_add
  write_peers_lem chunk_id peers s settled =
      let (s', written, settled', content') =
        laws.add_data-content chunk_id (codec.serialize_peers peers) s settled in
      (
        s',
        ap (λ (o : Checked (Bool × S)). o >>= checked_add store codec) written,
        (
          settled',
          content' chunk_id ∙ same chunk_id,
          λ k. ap parse_content (content' k) ∙ parse_if (chunk_id == k) peers (laws.content s k),
        ),
      )
    where
      same :
          (k : ℕ)
          → (if k == k then some (codec.serialize_peers peers) else laws.content s k)
            ≡ some (codec.serialize_peers peers)
      same k = ground arith

  peers_or_none_lem :
      (content : Option (List ℕ)) (peers : List ℕ)
      → parse_content content ≡ some peers
      → peers_or_none store codec content ≡ ok peers
  unfolding peers_or_none
  peers_or_none_lem none peers h = cc
  peers_or_none_lem (some peers_string) peers h = rw h refl

  announce_posession_lem :
      (self chunk_id : ℕ) (peers : List ℕ) (s : S)
      → laws.IsSettled s
      → holders s chunk_id ≡ some peers
      → (s' : S) × (announce_posession store codec self chunk_id s ≡ ok s')
        × Wrote chunk_id (peers ++ self ∷ []) s s'
  unfolding announce_posession
  announce_posession_lem self chunk_id peers s settled h =
      let (s', done, wrote) = write_peers_lem chunk_id (peers ++ self ∷ []) s settled in
      (
        s',
        ap
              (λ (o : Checked (Option (List ℕ) × S)). o >>= λ (c, t).
                peers_or_none store codec c >>= λ q.
                write_peers store codec chunk_id (q ++ self ∷ []) t)
              (laws.retrieve_data-content chunk_id s settled)
            ∙ ap
                (λ (o : Checked (List ℕ)).
                  o >>= λ q. write_peers store codec chunk_id (q ++ self ∷ []) s)
                (peers_or_none_lem (laws.content s chunk_id) peers h)
            ∙ done,
        wrote,
      )

  -- The first attempt succeeds.
  retrieve_within_lem :
      (meanwhile : S → S) (attempts chunk_id : ℕ) (peers : List ℕ) (s : S)
      → laws.IsSettled s
      → laws.content s chunk_id ≡ some (codec.serialize_peers peers)
      → retrieve_within store codec meanwhile attempts chunk_id s
        ≡ ok (codec.serialize_peers peers, s)
  unfolding retrieve_within or_again
  retrieve_within_lem meanwhile zero chunk_id peers s settled h =
      rw (laws.retrieve_data-content chunk_id s settled) (rw h refl)
  retrieve_within_lem meanwhile (suc attempts) chunk_id peers s settled h =
      rw (laws.retrieve_data-content chunk_id s settled) (rw h refl)

  seek_peers_lem :
      (meanwhile : S → S) (chunk_id peer : ℕ) (peers : List ℕ) (s : S)
      → laws.IsSettled s
      → laws.content s chunk_id ≡ some (codec.serialize_peers (peers ++ peer ∷ []))
      → seek_peers store codec meanwhile chunk_id [] s
        ≡ ok (insert_peers (peers ++ peer ∷ []) [], s)
  unfolding seek_peers
  seek_peers_lem meanwhile chunk_id peer peers s settled h =
      rw (retrieve_within_lem meanwhile 1000 chunk_id (peers ++ peer ∷ []) s settled h)
        (rw (reads_back (peers ++ peer ∷ [])) (rw positive refl))
    where
      positive : ltb 0 (size (peers ++ peer ∷ [])) ≡ true
      positive = ground (arith, size-snoc peers peer)

  renounce_posession_lem :
      (meanwhile : S → S) (self chunk_id : ℕ) (peers : List ℕ) (s : S)
      → laws.IsSettled s
      → laws.content s chunk_id ≡ some (codec.serialize_peers peers)
      → (s' : S) × (renounce_posession store codec meanwhile self chunk_id s ≡ ok s')
        × Wrote chunk_id (delete_first self peers) s s'
  unfolding renounce_posession
  renounce_posession_lem meanwhile self chunk_id peers s settled h =
      let (s', done, wrote) = write_peers_lem chunk_id (delete_first self peers) s settled in
      (
        s',
        rw (retrieve_within_lem meanwhile 10000 chunk_id peers s settled h)
            (rw (reads_back peers) done),
        wrote,
      )

  -- On a settled index, with messages that are parsed as they were written: after a peer that is not
  -- listed announces that it holds a chunk, `seekPeers` finds this peer and those that were listed;
  -- when it renounces the chunk, the list is as it was before. The lists of other chunks stay.
  pub renounce-announce :
      (meanwhile : S → S) (self chunk_id : ℕ) (peers : List ℕ) (s : S)
      → laws.IsSettled s
      → holders s chunk_id ≡ some peers
      → contains self peers ≡ false
      → (s1 s2 : S) × (found : List ℕ) × (announce_posession store codec self chunk_id s ≡ ok s1)
        × (seek_peers store codec meanwhile chunk_id [] s1 ≡ ok (found, s1))
        × ((k : ℕ) → contains k found ≡ (contains k peers || self == k))
        × (renounce_posession store codec meanwhile self chunk_id s1 ≡ ok s2)
        × laws.IsSettled s2
        × ((k : ℕ) → holders s2 k ≡ (if chunk_id == k then some peers else holders s k))
  renounce-announce meanwhile self chunk_id peers s settled h new =
      let (s1, done, (settled1, content1, holders1)) =
        announce_posession_lem self chunk_id peers s settled h in
      let (s2, undone, (settled2, _, holders2)) =
        renounce_posession_lem meanwhile self chunk_id (peers ++ self ∷ []) s1 settled1 content1 in
      (
        s1,
        s2,
        insert_peers (peers ++ self ∷ []) [],
        done,
        seek_peers_lem meanwhile chunk_id self peers s1 settled1 content1,
        λ k. contains-insert_peers k (peers ++ self ∷ []) [] ∙ both k,
        undone,
        settled2,
        λ k.
            holders2 k
            ∙ ap (λ l. if chunk_id == k then some l else holders s1 k)
                (delete_first-snoc self peers new)
            ∙ last k (chunk_id == k) (holders s1 k) (holders1 k),
      )
    where
      both :
          (k : ℕ)
          → (contains k [] || contains k (peers ++ self ∷ [])) ≡ (contains k peers || self == k)
      both k = unfold contains in ground (arith, contains-snoc self k peers)

      last :
          (k : ℕ) (b : Bool) (middle : Option (List ℕ))
          → middle ≡ (if b then some (peers ++ self ∷ []) else holders s k)
          → (if b then some peers else middle) ≡ (if b then some peers else holders s k)
      last k true middle e = refl
      last k false middle e = e
