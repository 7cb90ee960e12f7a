-- ===== src/LockFreeQueue/Rank.antt =====
-- include/qc/thread/lockfreequeue.h: a bound for the steps that a thread can take while no other disturbs it.
use qc.Base.{
  ℕ, ◌<◌, ◌≤◌, ◌≡◌, ◌≢◌, refl, Option-cases, inl, inr, Bool, true, false, Option, none, some, ◌==◌,
  if◌then◌else◌, arith,
}
use qc.LockFreeQueue.Machine.{Shared, Pc, Move}

-- A step that starts and ends no call, and is no compare-exchange that succeeds, or that fails though
-- it finds the value that it expects.
abbrev pub Quiet : {A : Type 0} {m m' : Shared A} {p p' : Pc A} → Move m p m' p' → Type 0
Quiet (Move.new_node v) = ⊥
Quiet (Move.link_done e) = ⊥
Quiet {m} (Move.link_failed {t}) = (m.cell t).next ≢ none
Quiet (Move.help_done e) = ⊥
Quiet {m} (Move.help_failed {t}) = m.tail ≢ t
Quiet (Move.swing_done e) = ⊥
Quiet Move.swing_failed = ⊥
Quiet Move.dequeue = ⊥
Quiet (Move.deq_help_done e) = ⊥
Quiet {m} (Move.deq_help_failed {t}) = m.tail ≢ t
Quiet (Move.move_done e) = ⊥
Quiet {m} (Move.move_failed {h}) = m.head ≢ h
Quiet Move.dequeue_return = ⊥
Quiet Move.empty = ⊥
Quiet Move.empty_return = ⊥
Quiet _ = Unit

abbrev is_last : Option ℕ → Bool
is_last none = true
is_last (some n) = false

-- A bound for the quiet steps that a thread has before it: what it has read of head, tail and next may
-- be old, and then it goes back to the start of its loop once.
abbrev pub rank : {A : Type 0} → Shared A → Pc A → ℕ
rank m (Pc.enq_tail v n) = 3
rank m (Pc.enq_next v n t) = if m.tail == t then 2 else 5
rank m (Pc.enq_check v n t none) =
    if m.tail == t then (if is_last (m.cell t).next then 1 else 5) else 4
rank m (Pc.enq_check v n t (some x)) = if m.tail == t then 1 else 4
rank m (Pc.enq_link v n t) = if is_last (m.cell t).next then 0 else 4
rank m (Pc.enq_help v n t x) = if m.tail == t then 0 else 4
rank m Pc.deq_head = 5
rank m (Pc.deq_tail h) = if m.head == h then 4 else 8
rank m (Pc.deq_next h t) = if m.head == h then (if m.tail == t then 3 else 8) else 7
rank m (Pc.deq_check h t x) = if m.head == h then (if m.tail == t then 2 else 7) else 6
rank m (Pc.deq_help t x) = if m.tail == t then 0 else 6
rank m (Pc.deq_read h x) = if m.head == h then 1 else 7
rank m (Pc.deq_move h x r) = if m.head == h then 0 else 6
rank m (Pc.deq_delete h r) = 1
rank m (Pc.empty_tail h) = 2
rank m (Pc.empty_next h t) = 1
rank m p = 0

module _ {A : Type 0} where
  pub rank_bound : (m : Shared A) (p : Pc A) → rank m p ≤ 8
  rank_bound m (Pc.enq_next v n t) = ground arith
  rank_bound m (Pc.enq_check v n t none) = ground arith
  rank_bound m (Pc.enq_check v n t (some x)) = ground arith
  rank_bound m (Pc.enq_link v n t) = ground arith
  rank_bound m (Pc.enq_help v n t x) = ground arith
  rank_bound m (Pc.deq_tail h) = ground arith
  rank_bound m (Pc.deq_next h t) = ground arith
  rank_bound m (Pc.deq_check h t x) = ground arith
  rank_bound m (Pc.deq_help t x) = ground arith
  rank_bound m (Pc.deq_read h x) = ground arith
  rank_bound m (Pc.deq_move h x r) = ground arith
  rank_bound m _ = omega arith

  load_next_rank :
      (m : Shared A) (v : Option A) (n t : ℕ) (x : Option ℕ)
      → (m.cell t).next ≡ x
      → rank m (Pc.enq_check v n t x) < rank m (Pc.enq_next v n t)
  load_next_rank m v n t none e = rw e (ground arith)
  load_next_rank m v n t (some x) e = ground arith

  stale_rank :
      (m : Shared A) (v : Option A) (n t : ℕ) (x : Option ℕ)
      → t ≢ m.tail
      → 3 < rank m (Pc.enq_check v n t x)
  stale_rank m v n t none e = ground arith
  stale_rank m v n t (some x) e = ground arith

  link_rank :
      (m : Shared A) (v : Option A) (n t : ℕ)
      → (m.cell t).next ≢ none
      → 3 < rank m (Pc.enq_link v n t)
  link_rank m v n t e = elim (Option-cases (m.cell t).next) [
    | inl f ↦ absurd (e f)
    | inr (x, f) ↦ rw f (omega arith)
  ]

  -- A quiet step lowers the rank of its thread, and leaves those of all others.
  pub Quiet-rank :
      {m m' : Shared A} {p p' : Pc A} (mv : Move m p m' p')
      → Quiet mv
      → (rank m' p' < rank m p) × ((q : Pc A) → rank m' q ≡ rank m q)
  Quiet-rank Move.load_tail q = (ground arith, λ p. refl)
  Quiet-rank {m} (Move.load_next {v} {n} {t}) q =
      (load_next_rank m v n t (m.cell t).next refl, λ p. refl)
  Quiet-rank (Move.check_last e) q = (ground arith, λ p. refl)
  Quiet-rank (Move.check_behind e) q = (ground arith, λ p. refl)
  Quiet-rank {m} (Move.check_stale {v} {n} {t} {x} e) q = (stale_rank m v n t x e, λ p. refl)
  Quiet-rank {m} (Move.link_failed {v} {n} {t}) q = (link_rank m v n t q, λ p. refl)
  Quiet-rank Move.help_failed q = (ground arith, λ p. refl)
  Quiet-rank Move.load_head q = (ground arith, λ p. refl)
  Quiet-rank Move.load_deq_tail q = (ground arith, λ p. refl)
  Quiet-rank Move.load_deq_next q = (ground arith, λ p. refl)
  Quiet-rank (Move.found_empty e f) q = (ground arith, λ p. refl)
  Quiet-rank (Move.found_behind e f) q = (ground arith, λ p. refl)
  Quiet-rank (Move.found_next e f) q = (ground arith, λ p. refl)
  Quiet-rank (Move.found_null e f) q = (ground arith, λ p. refl)
  Quiet-rank (Move.found_stale e) q = (ground arith, λ p. refl)
  Quiet-rank Move.deq_help_failed q = (ground arith, λ p. refl)
  Quiet-rank Move.read_datum q = (ground arith, λ p. refl)
  Quiet-rank Move.move_failed q = (ground arith, λ p. refl)
  Quiet-rank Move.delete_head q = (ground arith, λ p. refl)
  Quiet-rank Move.load_empty_tail q = (ground arith, λ p. refl)
  Quiet-rank (Move.tell_empty e f) q = (ground arith, λ p. refl)
  Quiet-rank (Move.tell_more e) q = (ground arith, λ p. refl)
  Quiet-rank (Move.tell_apart e) q = (ground arith, λ p. refl)
  Quiet-rank (Move.new_node v) q = absurd q
  Quiet-rank (Move.link_done e) q = absurd q
  Quiet-rank (Move.help_done e) q = absurd q
  Quiet-rank (Move.swing_done e) q = absurd q
  Quiet-rank Move.swing_failed q = absurd q
  Quiet-rank Move.dequeue q = absurd q
  Quiet-rank (Move.deq_help_done e) q = absurd q
  Quiet-rank (Move.move_done e) q = absurd q
  Quiet-rank Move.dequeue_return q = absurd q
  Quiet-rank Move.empty q = absurd q
  Quiet-rank Move.empty_return q = absurd q
