-- ===== src/TableIndex.antt =====
-- map-api/src/net-table-index.cc: which peers hold a chunk, in the distributed index. A key stands
-- for the hexadecimal digits of the id of the chunk. How the lists of peers are written and parsed
-- is a parameter, and so is what happens while a loop sleeps between two attempts.
pub mod Possession
use map_api.Prelude.{
  ℕ, zero, suc, Bool, true, false, Option, none, some, List, [], ◌∷◌, ◌++◌, ltb, ◌==◌,
  if◌then◌else◌,
}
use map_api.Prelude.Checked.{Checked, ok, fatal, ◌>>=◌, ◌>>◌, check, check_notnull}
use map_api.Prelude.IdSet.{size, add}
use map_api.Chord.Store.{Store}

pub record PeersCodec : Type 0 where
  pub serialize_peers : List ℕ → List ℕ
  pub parse_peers : List ℕ → Option (List ℕ)

-- `peers->insert`, for each of the peers.
unfoldable pub insert_peers : List ℕ → List ℕ → List ℕ
insert_peers [] peers = peers
insert_peers (peer ∷ peers_proto) peers = insert_peers peers_proto (add peer peers)

-- The loop that deletes the first entry of the peer.
unfoldable pub delete_first : ℕ → List ℕ → List ℕ
delete_first self [] = []
delete_first self (peer ∷ peers) =
    let rest = delete_first self peers in if peer == self then peers else peer ∷ rest

module _ {S : Type 0} (store : Store S) (codec : PeersCodec) where
  module _ (meanwhile : S → S) where
    -- What a failed attempt does, with the rest of the attempts.
    unfoldable pub or_again :
        (S → Checked (List ℕ × S)) → Option (List ℕ) × S → Checked (List ℕ × S)
    or_again again (some peers_string, s) = ok (peers_string, s)
    or_again again (none, s) = again (meanwhile s)

    -- At most this many attempts are repeated.
    unfoldable pub retrieve_within : ℕ → ℕ → S → Checked (List ℕ × S)
    unfolding or_again
    retrieve_within zero key s = store.retrieve_data key s >>= or_again (λ s'. fatal)
    retrieve_within (suc attempts) key s =
        store.retrieve_data key s >>= or_again (λ s'. retrieve_within attempts key s')

    unfoldable pub seek_peers : ℕ → List ℕ → S → Checked (List ℕ × S)
    unfolding retrieve_within insert_peers
    seek_peers chunk_id peers s = retrieve_within 1000 chunk_id s >>= λ (peers_string, s').
        check_notnull (codec.parse_peers peers_string) >>= λ peers_proto.
        check (ltb 0 (size peers_proto)) >> ok (insert_peers peers_proto peers, s')

  -- What `addData` returned is checked.
  unfoldable pub checked_add : Bool × S → Checked S
  checked_add (success, s) = check success >> ok s

  unfoldable pub write_peers : ℕ → List ℕ → S → Checked S
  unfolding checked_add
  write_peers chunk_id peers s =
      store.add_data chunk_id (codec.serialize_peers peers) s >>= checked_add

  -- The list to which a peer adds itself is empty if there is none.
  unfoldable pub peers_or_none : Option (List ℕ) → Checked (List ℕ)
  peers_or_none none = ok []
  peers_or_none (some peers_string) = check_notnull (codec.parse_peers peers_string)

  unfoldable pub announce_posession : ℕ → ℕ → S → Checked S
  unfolding write_peers peers_or_none
  announce_posession self chunk_id s = store.retrieve_data chunk_id s >>= λ (peers_string, s').
      peers_or_none peers_string >>= λ peers. write_peers chunk_id (peers ++ self ∷ []) s'

  unfoldable pub renounce_posession : (S → S) → ℕ → ℕ → S → Checked S
  unfolding retrieve_within write_peers delete_first
  renounce_posession meanwhile self chunk_id s =
      retrieve_within meanwhile 10000 chunk_id s >>= λ (peers_string, s').
      check_notnull (codec.parse_peers peers_string) >>= λ peers.
      write_peers chunk_id (delete_first self peers) s'
