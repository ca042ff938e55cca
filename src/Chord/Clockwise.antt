-- ===== src/Chord/Clockwise.antt =====
-- The intervals of the ring, against the distance between keys in the direction of growing keys.
use map_api.Prelude.{ℕ, ◌+◌, ◌-◌, ◌%◌, ◌^◌, ◌<◌, ◌≡◌, true, false, ltb, ◌==◌, ◌&&◌, ◌||◌, arith}
use map_api.Chord.{Config, hash_peer, hash_string, is_in}

-- How far `to` is from `from`, modulo 2 ^ 16.
unfoldable pub clockwise : ℕ → ℕ → ℕ
clockwise from to = (to + 2 ^ 16 - from) % 2 ^ 16

pub hash_peer-lt : (c : Config) (peer : ℕ) → hash_peer c peer < 2 ^ 16
unfolding hash_peer
hash_peer-lt c peer = omega arith

pub hash_string-lt : (c : Config) (key : ℕ) → hash_string c key < 2 ^ 16
unfolding hash_string
hash_string-lt c key = omega arith

-- A 16-bit key is in an interval exactly if the interval is the whole ring (its ends are equal) or
-- the key is closer to its start, clockwise, than its end is.
pub is_in-clockwise :
    (key from to : ℕ)
    → key < 2 ^ 16
    → from < 2 ^ 16
    → to < 2 ^ 16
    → is_in key from to ≡ ((to == from) || ltb (clockwise from key) (clockwise from to))
unfolding is_in clockwise
is_in-clockwise key from to hk hf ht = ground arith

-- Outside the interval, its end is closer to the key than its start is.
pub not_is_in-clockwise_lt :
    (key from to : ℕ)
    → key < 2 ^ 16
    → from < 2 ^ 16
    → to < 2 ^ 16
    → is_in key from to ≡ false
    → clockwise to key < clockwise from key
unfolding is_in clockwise
not_is_in-clockwise_lt key from to hk hf ht h = ground arith

pub is_in-clockwise_lt :
    (key from to : ℕ)
    → key < 2 ^ 16
    → from < 2 ^ 16
    → to < 2 ^ 16
    → is_in key from to ≡ true
    → is_in to from to ≡ false
    → clockwise from key < clockwise from to
unfolding is_in clockwise
is_in-clockwise_lt key from to hk hf ht h d = ground arith

pub clockwise-lt : (from to : ℕ) → clockwise from to < 2 ^ 16
unfolding clockwise
clockwise-lt from to = omega arith

-- A key inside an interval, other than its start, cuts it into two intervals: each key of the
-- interval is in exactly one of them, and no other key is.
pub is_in-split :
    (key from mid to : ℕ)
    → key < 2 ^ 16
    → from < 2 ^ 16
    → mid < 2 ^ 16
    → to < 2 ^ 16
    → is_in mid from to ≡ true
    → (mid == from) ≡ false
    → (is_in key from to ≡ (is_in key from mid || is_in key mid to))
      × ((is_in key from mid && is_in key mid to) ≡ false)
unfolding is_in
is_in-split key from mid to hk hf hm ht h d = (ground arith, ground arith)

-- Of two intervals that share a key, one holds the start of the other.
pub is_in-overlap :
    (key from to from' to' : ℕ)
    → key < 2 ^ 16
    → from < 2 ^ 16
    → to < 2 ^ 16
    → from' < 2 ^ 16
    → to' < 2 ^ 16
    → is_in key from to ≡ true
    → is_in key from' to' ≡ true
    → (is_in from' from to || is_in from from' to') ≡ true
unfolding is_in
is_in-overlap key from to from' to' hk hf ht hf' ht' h h' = ground arith
