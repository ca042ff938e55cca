-- ===== src/Chord/Handover.antt =====
-- The data that a peer hands to a new predecessor, and that it takes over from one that leaves.
use map_api.Prelude.{
  ℕ, ◌^◌, ◌<◌, ◌≡◌, refl, ap, true, false, none, List, [], ◌∷◌, ◌==◌, if◌then◌else◌, arith,
}
use map_api.Prelude.Checked.{ok}
use map_api.Prelude.Map.{Map, find, has, emplace, find-emplace, has-emplace, find-none}
use map_api.Chord.{Config, hash_peer, hash_string, is_in, Node}
use map_api.Chord.Handlers.{collect, handle_fetch_responsibilities}
use map_api.Chord.Clockwise.{is_in-split, hash_peer-lt, hash_string-lt}

hash_eq : (c : Config) (k j : ℕ) → k ≡ j → hash_string c k ≡ hash_string c j
hash_eq c k j e = ap (λ i. hash_string c i) e

find-collect :
    (c : Config) (requester own k : ℕ) (acc items : Map (List ℕ))
    → find k (collect c requester own acc items) ≡ (
        if has k acc
        then find k acc
        else if is_in (hash_string c k) (hash_peer c requester) own
        then none
        else find k items)
unfolding collect find
find-collect c requester own k acc [] = ground (arith, find-none k acc)
find-collect c requester own k acc ((j, v) ∷ items) = ground (
  arith,
  find-collect c requester own k acc items,
  find-collect c requester own k (emplace j v acc) items,
  has-emplace j k v acc,
  find-emplace j k v acc,
  hash_eq c j k,
)

-- The key of every item is in the interval.
abbrev pub IsWithin : Config → ℕ → ℕ → Map (List ℕ) → Type 0
IsWithin c from to [] = Unit {0}
IsWithin c from to ((k, v) ∷ items) =
    (is_in (hash_string c k) from to ≡ true) × IsWithin c from to items

IsWithin-find :
    (c : Config) (from to k : ℕ) (items : Map (List ℕ))
    → IsWithin c from to items
    → (if is_in (hash_string c k) from to then none else find k items) ≡ none
unfolding find
IsWithin-find c from to k [] h = ground arith
IsWithin-find c from to k ((j, v) ∷ items) h =
    ground (arith, IsWithin-find c from to k items, hash_eq c j k)

-- A peer that holds the data of the interval from its predecessor answers a peer that comes between
-- them with exactly the data from the predecessor to that peer.
pub handle_fetch_responsibilities-find :
    (c : Config) (from requester k : ℕ) (n : Node)
    → from < 2 ^ 16
    → n.own_key < 2 ^ 16
    → n.initialized ≡ true
    → IsWithin c from n.own_key n.data_
    → is_in (hash_peer c requester) from n.own_key ≡ true
    → (hash_peer c requester == from) ≡ false
    → (items : Map (List ℕ)) × (handle_fetch_responsibilities c requester n ≡ ok items)
      × (find k items
          ≡ (if is_in (hash_string c k) from (hash_peer c requester) then find k n.data_ else none))
unfolding handle_fetch_responsibilities map_api.Chord.wait_until_initialized has
handle_fetch_responsibilities-find c from requester k n hf ho up within between apart =
    let items = collect c requester n.own_key [] n.data_ in
    let cut =
      is_in-split (hash_string c k) from (hash_peer c requester) n.own_key (hash_string-lt c k) hf
        (hash_peer-lt c requester) ho between apart in
    (
      items,
      rw up refl,
      ground (
        arith,
        find-collect c requester n.own_key k [] n.data_,
        cut.0,
        cut.1,
        IsWithin-find c from n.own_key k n.data_ within,
      ),
    )
