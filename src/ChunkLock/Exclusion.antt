-- ===== src/ChunkLock/Exclusion.antt =====
-- The writers among the peers of a chunk.
use mathlib.Core.Path.{subst}
use map_api.Prelude.Tests.{Bool-cases}
use map_api.Prelude.{inl, inr, ap, sym, ◌∙◌}
use map_api.ChunkLock.System.{
  System, at, is_releasing, with_lock, with_ack, Step, read, attempt, request, acquire, unlock,
  release, release_self, initial, Reach, start, later,
}
use map_api.Prelude.{ℕ, ◌≡◌, refl, true, false, not, List, ◌==◌, ◌&&◌, arith}
use map_api.Prelude.IdSet.{contains}
use map_api.ChunkLock.{DistributedRwLock, is_writer, unlock_self}
use map_api.ChunkLock.Sections.{
  writes, distributed_read_lock-Keeps, begin_write_lock-Keeps, begin_unlock-Keeps,
  finish_write_lock-writes, handle_lock_request-granted, handle_unlock_request-released,
}

-- Who has acknowledged whom, and what a peer that writes knows.
record IsExclusive (peers : List ℕ) (s : System) : Type 0 where
  apart : (a : ℕ) → s.acks a a ≡ false
  acked : (a b : ℕ) → s.acks a b ≡ true → is_writer a (s.locks b) ≡ true
  full :
      (a b : ℕ)
      → writes a (s.locks a) ≡ true
      → (contains b peers && not (b == a)) ≡ true
      → s.acks a b ≡ true

-- A lock is held by one peer.
is_writer-same :
    (a b : ℕ) (l : DistributedRwLock) → is_writer a l ≡ true → is_writer b l ≡ true → a ≡ b
unfolding is_writer
is_writer-same a b l h k = ground arith

writes-is_writer : (a : ℕ) (l : DistributedRwLock) → writes a l ≡ true → is_writer a l ≡ true
unfolding writes
writes-is_writer a l h = ground arith

writes_depth : (a : ℕ) (l : DistributedRwLock) → l.write_recursion_depth ≡ 0 → writes a l ≡ false
unfolding writes
writes_depth a l h = ground (arith, h)

unlocked_writer : (a : ℕ) (l : DistributedRwLock) → is_writer a (unlock_self l) ≡ false
unfolding unlock_self is_writer
unlocked_writer a l = refl

module _ (peers : List ℕ) (s : System) (inv : IsExclusive peers s) where
  locks_eq : (a d : ℕ) → (d == a) ≡ true → s.locks d ≡ s.locks a
  locks_eq a d e = ap (λ q. s.locks q) (ground (arith, e))

  -- A change of one lock under which its acknowledgements stay true.
  with_lock-IsExclusive :
      (a : ℕ) (l : DistributedRwLock)
      → ((c : ℕ) → s.acks c a ≡ true → is_writer c l ≡ true)
      → ((b : ℕ)
          → writes a l ≡ true
          → (contains b peers && not (b == a)) ≡ true
          → s.acks a b ≡ true)
      → IsExclusive peers (with_lock a l s)
  unfolding at
  with_lock-IsExclusive a l held known = record {
    apart = inv.apart;
    acked = λ c d e. elim (Bool-cases (d == a)) [
      | inl h ↦ rw h (held c (ap (λ q. s.acks c q) (ground (arith, h)) ∙ e))
      | inr h ↦ rw h (inv.acked c d e)
    ];
    full = λ c d w m. elim (Bool-cases (c == a)) [
      | inl h ↦
          let ea : c ≡ a = ground (arith, h) in
          ap (λ q. s.acks q d) ea
          ∙ known d (subst (λ q. writes q l ≡ true) ea (rw h at w))
              (subst (λ q. (contains d peers && not (d == q)) ≡ true) ea m)
      | inr h ↦ inv.full c d (rw h at w) m
    ];
  }

  eq_of : (c a : ℕ) → (c == a) ≡ true → c ≡ a
  eq_of c a h = ground (arith, h)

  not_apart : {A : Type 0} (c a : ℕ) → (c == a) ≡ true → s.acks c a ≡ true → A
  not_apart c a h e =
      absurd (clash (sym (inv.apart a) ∙ ap (λ q. s.acks q a) (sym (eq_of c a h)) ∙ e))
    where
      clash : false ≡ true → ⊥
      clash e = cc

  -- Peer `b`, which nobody writes at, acknowledges a request of `a`.
  request-IsExclusive :
      (a b : ℕ) (l : DistributedRwLock)
      → (a == b) ≡ false
      → ((c : ℕ) → (is_writer c (s.locks b) ≡ false) × (is_writer c l ≡ (a == c)))
      → IsExclusive peers (with_ack a b true (with_lock b l s))
  unfolding at writes
  request-IsExclusive a b l other granted = record {
    apart = λ c. ground (arith, inv.apart c, inv.apart a, ap (λ q. s.acks a q) {x = c} {y = a});
    acked = λ c d e. elim (Bool-cases (d == b)) [
      | inl h ↦ elim (Bool-cases (c == a)) [
        | inl k ↦ rw h ((granted c).1 ∙ ground (arith, k))
        | inr k ↦
            let old = inv.acked c d (rw k at e) in
            let none_there = (granted c).0 in
            ground (arith, old, none_there, ap (λ q. is_writer c (s.locks q)) (eq_of d b h))
      ]
      | inr h ↦ rw h (
          inv.acked c d (elim (Bool-cases (c == a)) [
            | inl k ↦ ap (λ q. s.acks q d) (eq_of c a k) ∙ (rw (k, h) at e)
            | inr k ↦ rw k at e
          ]))
    ];
    full = λ c d w m. elim (Bool-cases (c == b)) [
      | inl h ↦
          let is = writes-is_writer c l (rw h at w) in
          absurd (ground (arith, is, (granted c).1, h, other))
      | inr h ↦
          let old = inv.full c d (rw h at w) m in
          ground (arith, old, ap (λ q. s.acks q d) {x = c} {y = a})
    ];
  }

  -- Peer `b` handles the unlock request of `a`, which no longer writes.
  release-IsExclusive :
      (a b : ℕ) (l : DistributedRwLock)
      → (a == b) ≡ false
      → writes a (s.locks a) ≡ false
      → ((c : ℕ) → (is_writer c (s.locks b) ≡ (a == c)) × (is_writer c l ≡ false))
      → IsExclusive peers (with_ack a b false (with_lock b l s))
  unfolding at
  release-IsExclusive a b l other done released = record {
    apart = λ c. ground (arith, inv.apart c, inv.apart a, ap (λ q. s.acks a q) {x = c} {y = a});
    acked = λ c d e. elim (Bool-cases (c == a)) [
      | inl k ↦ elim (Bool-cases (d == b)) [
        | inl h ↦ absurd (ground (arith, rw (k, h) at e))
        | inr h ↦ rw h (inv.acked c d (ap (λ q. s.acks q d) (eq_of c a k) ∙ (rw (k, h) at e)))
      ]
      | inr k ↦ elim (Bool-cases (d == b)) [
        | inl h ↦
            let old = inv.acked c d (rw k at e) in
            let theirs = (released c).0 in
            absurd (ground (arith, old, theirs, k, ap (λ q. is_writer c (s.locks q)) (eq_of d b h)))
        | inr h ↦ rw h (inv.acked c d (rw k at e))
      ]
    ];
    full = λ c d w m. elim (Bool-cases (c == b)) [
      | inl h ↦
          let is = writes-is_writer c l (rw h at w) in absurd (ground (arith, is, (released c).1))
      | inr h ↦
          let now = rw h at w in
          let old = inv.full c d now m in
          ground (arith, old, now, done, ap (λ q. writes q (s.locks q)) {x = c} {y = a})
    ];
  }

  Step-IsExclusive : (t : System) → Step peers s t → IsExclusive peers t
  unfolding is_releasing
  Step-IsExclusive t (read a thread relinquished l free e) =
      let keeps = distributed_read_lock-Keeps a thread relinquished false (s.locks a) l free e in
      with_lock-IsExclusive a l (λ c h. sym (keeps c).0 ∙ inv.acked c a h)
        (λ b w m. inv.full a b (ground (arith, (keeps a).1, w)) m)
  Step-IsExclusive t (attempt a thread relinquished sends l free e) =
      let keeps = begin_write_lock-Keeps a thread relinquished sends (s.locks a) l free e in
      with_lock-IsExclusive a l (λ c h. sym (keeps c).0 ∙ inv.acked c a h)
        (λ b w m. inv.full a b (ground (arith, (keeps a).1, w)) m)
  Step-IsExclusive t (unlock a thread sends l free e) =
      let keeps = begin_unlock-Keeps a thread false sends (s.locks a) l e in
      with_lock-IsExclusive a l (λ c h. sym (keeps c).0 ∙ inv.acked c a h)
        (λ b w m. inv.full a b (ground (arith, (keeps a).1, w)) m)
  Step-IsExclusive t (acquire a thread l all free e) =
      let taken = finish_write_lock-writes a thread false false (s.locks a) l e in
      with_lock-IsExclusive a l
        (λ c h. let old = inv.acked c a h in absurd (ground (arith, old, (taken c).0)))
        (λ b w m. all b m)
  Step-IsExclusive t (request a b lowest relinquished l other free e) =
      request-IsExclusive a b l other
        (handle_lock_request-granted b 0 relinquished false (s.locks b) l a lowest e)
  Step-IsExclusive t (release a b relinquished l other depth free e) =
      release-IsExclusive a b l other (writes_depth a (s.locks a) depth)
        (handle_unlock_request-released b 0 relinquished false (s.locks b) l a e)
  Step-IsExclusive t (release_self a is depth) =
      with_lock-IsExclusive a (unlock_self (s.locks a)) (λ c h. not_apart c a (same c h) h)
        (λ b w m. absurd (
          ground
            (arith, writes-is_writer a (unlock_self (s.locks a)) w, unlocked_writer a (s.locks a))))
    where
      same : (c : ℕ) → s.acks c a ≡ true → (c == a) ≡ true
      same c h = let q = is_writer-same c a (s.locks a) (inv.acked c a h) is in ground (arith, q)

initial-IsExclusive : (peers : List ℕ) → IsExclusive peers initial
unfolding writes is_writer
initial-IsExclusive peers = record { apart = λ a. refl; acked = λ a b e. cc; full = λ a b w m. cc }

Reach-IsExclusive : (peers : List ℕ) (s : System) → Reach peers s → IsExclusive peers s
Reach-IsExclusive peers s start = initial-IsExclusive peers
Reach-IsExclusive peers s (later {s = before} reach step) =
    Step-IsExclusive peers before (Reach-IsExclusive peers before reach) s step

-- In every reachable state of the lock of a chunk, at most one peer of the swarm writes: holds its
-- own write lock and has not begun to release it.
pub Reach-one_writer :
    (peers : List ℕ) (s : System) (a b : ℕ)
    → Reach peers s
    → contains a peers ≡ true
    → contains b peers ≡ true
    → writes a (s.locks a) ≡ true
    → writes b (s.locks b) ≡ true
    → a ≡ b
Reach-one_writer peers s a b reach ma mb wa wb =
    let inv = Reach-IsExclusive peers s reach in
    elim (Bool-cases (b == a)) [
      | inl h ↦ ground (arith, h)
      | inr h ↦
          let ack = inv.full a b wa (ground (arith, mb, h)) in
          is_writer-same a b (s.locks b) (inv.acked a b ack) (writes-is_writer b (s.locks b) wb)
    ]
