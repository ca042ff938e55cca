-- ===== src/Chord/RingStore.antt =====
-- The distributed index of map-api/src/chord-index.cc as a store, from one peer of the ring.
use map_api.Prelude.{
  ℕ, ◌^◌, ◌≤◌, ◌≡◌, ◌∙◌, sym, ap, Bool, true, Option, none, some, List, ◌==◌, if◌then◌else◌, arith,
}
use map_api.Prelude.Checked.{Checked, ok, fatal, ◌>>=◌}
use map_api.Prelude.Map.{find}
use map_api.Chord.{Config, Node}
use map_api.Chord.Network.{Network}
use map_api.Chord.Ring.{IsRing}
use map_api.Chord.Lookup.{add_data, retrieve_data}
use map_api.Chord.RoundTrip.{retrieve_data-IsOwner, retrieve_data-add_data, add_data-IsRing}
use map_api.Chord.Store.{Store, StoreLaws}

-- Enough rounds for a lookup on a settled ring.
abbrev pub ring_fuel : ℕ
ring_fuel = 2 ^ 16

-- A lookup that the fuel does not suffice for counts as fatal.
abbrev returned : {A : Type 0} → Option A × Network → Checked (A × Network)
returned (none, net) = fatal
returned (some a, net) = ok (a, net)

abbrev pub ring_store : Config → ℕ → Store Network
ring_store c self = record {
  add_data = λ key value net. add_data c self 1 ring_fuel key value net >>= returned;
  retrieve_data = λ key net. retrieve_data c self 1 ring_fuel key net >>= returned;
}

-- What a read returns.
abbrev read_value : Checked (Option (Option (List ℕ)) × Network) → Option (List ℕ)
read_value fatal = none
read_value (ok (none, net)) = none
read_value (ok (some value, net)) = value

abbrev Written : Type 0
Written = Checked (Option Bool × Network)

abbrev Read : Type 0
Read = Checked (Option (Option (List ℕ)) × Network)

some_same :
    (o : Written) (net net' : Network)
    → o ≡ ok (some true, net)
    → o ≡ ok (some true, net')
    → net ≡ net'
some_same o net net' e e' = cc

abbrev read_ok : Read → Network → Checked (Option (List ℕ) × Network)
read_ok o net = ok (read_value o, net)

returned_lem :
    (o : Read) (value : Option (List ℕ)) (net : Network)
    → o ≡ ok (some value, net)
    → (o >>= returned) ≡ ok (read_value o, net)
returned_lem o value net e =
    ap (λ (q : Read). q >>= returned) e ∙ sym (ap (λ (q : Read). read_ok q net) e)

pub retrieve_returned :
    (c : Config) (self key : ℕ) (net : Network) (n : Node)
    → IsRing c net
    → find self net ≡ some n
    → (retrieve_data c self 1 ring_fuel key net >>= returned)
      ≡ ok (read_value (retrieve_data c self 1 ring_fuel key net), net)
retrieve_returned c self key net n ring e =
    let (_, _, _, _, read) =
      retrieve_data-IsOwner c self key 0 ring_fuel net n ring e (omega arith) in
    returned_lem (retrieve_data c self 1 ring_fuel key net) _ net read

pub add_returned :
    (c : Config) (self key : ℕ) (value : List ℕ) (net : Network) (n : Node)
    → IsRing c net
    → find self net ≡ some n
    → (net' : Network) × ((add_data c self 1 ring_fuel key value net >>= returned)
        ≡ ok (true, net'))
      × (IsRing c net' × ((m : Node) × (find self net' ≡ some m)))
      × ((k : ℕ)
          → read_value (retrieve_data c self 1 ring_fuel k net') ≡ (
              if key == k then some value else read_value (retrieve_data c self 1 ring_fuel k net)))
add_returned c self key value net n ring e =
    let enough : 2 ^ 16 ≤ ring_fuel = omega arith in
    let (net', done, ring', (m, e')) =
      add_data-IsRing c self key 0 ring_fuel value net n ring e enough in
    (
      net',
      ap (λ (o : Checked (Option Bool × Network)). o >>= returned) done,
      (ring', (m, e')),
      λ k.
          let (net2, before, done2, read1, read2) =
            retrieve_data-add_data c self self key k 0 ring_fuel 0 ring_fuel value net n n ring e e
              enough enough in
          let same = some_same (add_data c self 1 ring_fuel key value net) net' net2 done done2 in
          ap (λ u. read_value (retrieve_data c self 1 ring_fuel k u)) same
          ∙ ap read_value read2
          ∙ sym (ap (λ b. if key == k then some value else b) (ap read_value read1)),
    )

-- The laws of a store, for the settled rings that have the peer.
abbrev pub ring_laws : (c : Config) (self : ℕ) → StoreLaws Network (ring_store c self)
ring_laws c self = record {
  IsSettled = λ net. IsRing c net × ((n : Node) × (find self net ≡ some n));
  content = λ net key. read_value (retrieve_data c self 1 ring_fuel key net);
  retrieve_data-content = λ key net (ring, (n, e)). retrieve_returned c self key net n ring e;
  add_data-content = λ key value net (ring, (n, e)). add_returned c self key value net n ring e;
}
