-- ===== src/LockFreeQueue/Invariant.antt =====
-- include/qc/thread/lockfreequeue.h: the invariant of the queue: the chain of linked nodes, where head and tail
-- stand on it, and what the local variables of each thread say about it.
use qc.Base.{ℕ, ◌+◌, ◌≤◌, ◌<◌, ◌≡◌, ◌≢◌, Option, none, some}
use qc.LockFreeQueue.Machine.{
  Shared, Pc, enq_tail, enq_next, enq_check, enq_link, enq_help, enq_swing, deq_tail, deq_next,
  deq_check, deq_help, deq_read, deq_move, deq_delete, empty_tail, empty_next, null_read,
}

-- The nodes linked so far, in order: `at 0` is the first dummy. `first` and `last` are the places
-- of head and tail.
pub record Ghost : Type 0 where
  pub at : ℕ → ℕ
  pub size : ℕ
  pub first : ℕ
  pub last : ℕ

pub record Shape {A : Type 0} (g : Ghost) (m : Shared A) : Type 0 where
  pub head_at : m.head ≡ g.at g.first
  pub tail_at : m.tail ≡ g.at g.last
  pub ordered : g.first ≤ g.last
  pub inside : g.last < g.size
  pub lag : g.size ≤ g.last + 2
  pub linked : (i : ℕ) → i + 1 < g.size → (m.cell (g.at i)).next ≡ some (g.at (i + 1))
  pub ended : (i : ℕ) → i + 1 ≡ g.size → (m.cell (g.at i)).next ≡ none
  pub distinct : (i j : ℕ) → i < g.size → j < g.size → g.at i ≡ g.at j → i ≡ j
  pub known : (i : ℕ) → i < g.size → g.at i < m.fresh

-- The node that an enqueue has made and not yet linked.
abbrev pub owned : {A : Type 0} → Pc A → Option ℕ
owned (enq_tail v n) = some n
owned (enq_next v n t) = some n
owned (enq_check v n t x) = some n
owned (enq_link v n t) = some n
owned (enq_help v n t x) = some n
owned _ = none

-- A place on the chain, up to a limit.
abbrev pub Place : Ghost → ℕ → ℕ → Type 0
Place g a limit = (i : ℕ) × (a ≡ g.at i) × (i ≤ limit)

-- What the local variables of one thread say.
abbrev pub Local : {A : Type 0} → Ghost → Shared A → Pc A → Type 0
Local g m (enq_tail v n) = (m.cell n).datum ≡ v
Local g m (enq_next v n t) = ((m.cell n).datum ≡ v) × Place g t g.last
Local g m (enq_check v n t none) = ((m.cell n).datum ≡ v) × Place g t g.last
Local g m (enq_check v n t (some x)) =
    ((m.cell n).datum ≡ v)
    × ((i : ℕ) × (t ≡ g.at i) × (x ≡ g.at (i + 1)) × (i ≤ g.last) × (i + 1 < g.size))
Local g m (enq_link v n t) = ((m.cell n).datum ≡ v) × Place g t g.last
Local g m (enq_help v n t x) =
    ((m.cell n).datum ≡ v)
    × ((i : ℕ) × (t ≡ g.at i) × (x ≡ g.at (i + 1)) × (i ≤ g.last) × (i + 1 < g.size))
Local g m (enq_swing v n t) =
    (i : ℕ) × (t ≡ g.at i) × (n ≡ g.at (i + 1)) × (i ≤ g.last) × (i + 1 < g.size)
Local g m (deq_tail h) = Place g h g.first
Local g m (deq_next h t) =
    (i : ℕ) × (j : ℕ) × (h ≡ g.at i) × (t ≡ g.at j) × (i ≤ g.first) × (i ≤ j) × (j ≤ g.last)
Local g m (deq_check h t none) = (i : ℕ) × (h ≡ g.at i) × (t ≡ g.at i) × (i ≤ g.first)
Local g m (deq_check h t (some x)) =
    (i : ℕ) × (j : ℕ) × (h ≡ g.at i)
    × (t ≡ g.at j)
    × (i ≤ g.first)
    × (i ≤ j)
    × (j ≤ g.last)
    × (x ≡ g.at (i + 1))
    × (i + 1 < g.size)
Local g m (deq_help t x) =
    (i : ℕ) × (t ≡ g.at i) × (x ≡ g.at (i + 1)) × (i ≤ g.last) × (i + 1 < g.size)
Local g m (deq_read h x) =
    (i : ℕ) × (h ≡ g.at i) × (x ≡ g.at (i + 1)) × (i ≤ g.first) × (i < g.last)
Local g m (deq_move h x r) =
    (i : ℕ) × (h ≡ g.at i)
    × (x ≡ g.at (i + 1))
    × (i ≤ g.first)
    × (i < g.last)
    × (r ≡ (m.cell x).datum)
Local g m (deq_delete h r) = (i : ℕ) × (h ≡ g.at i) × (i < g.first)
Local g m (empty_tail h) = Place g h g.first
Local g m (empty_next h t) =
    (i : ℕ) × (j : ℕ) × (h ≡ g.at i) × (t ≡ g.at j) × (i ≤ g.first) × (i ≤ j) × (j ≤ g.last)
Local g m null_read = ⊥
Local g m _ = Unit

-- A node in the making belongs to one thread, and is not on the chain.
pub record Owned {A : Type 0} (g : Ghost) (m : Shared A) (n : ℕ) : Type 0 where
  pub made : n < m.fresh
  pub apart : (i : ℕ) → i < g.size → n ≢ g.at i
  pub unlinked : (m.cell n).next ≡ none

pub record Inv {A : Type 0} (g : Ghost) (m : Shared A) (pc : ℕ → Pc A) : Type 0 where
  pub shape : Shape g m
  pub local : (j : ℕ) → Local g m (pc j)
  pub making : (j n : ℕ) → owned (pc j) ≡ some n → Owned g m n
  pub alone : (i j n : ℕ) → owned (pc i) ≡ some n → owned (pc j) ≡ some n → i ≡ j

-- What every step keeps: the chain only grows, and head and tail only move forward.
pub record Extends {A : Type 0} (g : Ghost) (m : Shared A) (g' : Ghost) (m' : Shared A)
    : Type 0 where
  pub same : (i : ℕ) → i < g.size → g'.at i ≡ g.at i
  pub grows : g.size ≤ g'.size
  pub forward : g.first ≤ g'.first
  pub onward : g.last ≤ g'.last
  pub data_kept : (a : ℕ) → a < m.fresh → (m'.cell a).datum ≡ (m.cell a).datum
