-- ===== src/LockFreeQueue/Machine.antt =====
-- The nodes of the queue, and the program of `enqueue`, `dequeue` and `empty`, one atomic access a
-- step. Memory is sequentially consistent, and a weak compare-exchange may fail at any time.
use qc.Base.{ℕ, suc, ◌≡◌, ◌≢◌, Bool, true, false, Option, none, some, update}

-- `T` is a nullable pointer in both uses of the queue, so a datum is an `Option A`; null is `none`.
pub record Node (A : Type 0) : Type 0 where
  pub datum : Option A
  pub next : Option ℕ

-- The memory that all threads share. `fresh` is the next address of the allocator, which hands no
-- address out twice; a deleted node keeps its contents and is marked in `deleted`.
pub record Shared (A : Type 0) : Type 0 where
  pub cell : ℕ → Node A
  pub deleted : ℕ → Bool
  pub fresh : ℕ
  pub head : ℕ
  pub tail : ℕ

abbrev pub set_next : {A : Type 0} → Shared A → ℕ → ℕ → Shared A
set_next m a n = record m {
  cell = update m.cell a (record { datum = (m.cell a).datum; next = some n });
}

abbrev pub allocate : {A : Type 0} → Shared A → Option A → Shared A
allocate m v = record m {
  cell = update m.cell m.fresh (record { datum = v; next = none });
  fresh = suc m.fresh;
}

abbrev pub delete : {A : Type 0} → Shared A → ℕ → Shared A
delete m a = record m { deleted = update m.deleted a true }

-- The constructor: a dummy node, to which head and tail point.
abbrev pub construct : (A : Type 0) → Shared A
construct A = record {
  cell = λ _. record { datum = none; next = none };
  deleted = λ _. false;
  fresh = 1;
  head = 0;
  tail = 0;
}

-- Where a thread stands, with the local variables that are live there.
pub data Pc (A : Type 0) : Type 0 where
  idle : Pc A
  enq_tail : (value : Option A) (new_node : ℕ) → Pc A
  enq_next : (value : Option A) (new_node cur_tail : ℕ) → Pc A
  enq_check : (value : Option A) (new_node cur_tail : ℕ) (next : Option ℕ) → Pc A
  enq_link : (value : Option A) (new_node cur_tail : ℕ) → Pc A
  enq_help : (value : Option A) (new_node cur_tail next : ℕ) → Pc A
  enq_swing : (value : Option A) (new_node cur_tail : ℕ) → Pc A
  deq_head : Pc A
  deq_tail : (cur_head : ℕ) → Pc A
  deq_next : (cur_head cur_tail : ℕ) → Pc A
  deq_check : (cur_head cur_tail : ℕ) (next : Option ℕ) → Pc A
  deq_help : (cur_tail next : ℕ) → Pc A
  deq_read : (cur_head next : ℕ) → Pc A
  deq_move : (cur_head next : ℕ) (ret : Option A) → Pc A
  deq_delete : (cur_head : ℕ) (ret : Option A) → Pc A
  dequeued : (ret : Option A) → Pc A
  empty_tail : (h : ℕ) → Pc A
  empty_next : (h t : ℕ) → Pc A
  told : (is_empty : Bool) → Pc A
  null_read : Pc A  -- `next->data` was read with `next` null

-- One step of one thread. An idle thread may call any operation.
pub data Move {A : Type 0} (m : Shared A) : Pc A → Shared A → Pc A → Type 0 where
  -- enqueue
  new_node : (v : Option A) → Move m idle (allocate m v) (enq_tail v m.fresh)
  load_tail : {v : Option A} {n : ℕ} → Move m (enq_tail v n) m (enq_next v n m.tail)
  load_next : {v : Option A} {n t : ℕ} → Move m (enq_next v n t) m (enq_check v n t (m.cell t).next)
  check_last :
      {v : Option A} {n t : ℕ} → t ≡ m.tail → Move m (enq_check v n t none) m (enq_link v n t)
  check_behind :
      {v : Option A} {n t x : ℕ}
      → t ≡ m.tail
      → Move m (enq_check v n t (some x)) m (enq_help v n t x)
  check_stale :
      {v : Option A} {n t : ℕ} {x : Option ℕ}
      → t ≢ m.tail
      → Move m (enq_check v n t x) m (enq_tail v n)
  link_done :
      {v : Option A} {n t : ℕ}
      → (m.cell t).next ≡ none
      → Move m (enq_link v n t) (set_next m t n) (enq_swing v n t)
  link_failed : {v : Option A} {n t : ℕ} → Move m (enq_link v n t) m (enq_tail v n)
  help_done :
      {v : Option A} {n t x : ℕ}
      → m.tail ≡ t
      → Move m (enq_help v n t x) (record m { tail = x }) (enq_tail v n)
  help_failed : {v : Option A} {n t x : ℕ} → Move m (enq_help v n t x) m (enq_tail v n)
  swing_done :
      {v : Option A} {n t : ℕ} → m.tail ≡ t → Move m (enq_swing v n t) (record m { tail = n }) idle
  swing_failed : {v : Option A} {n t : ℕ} → Move m (enq_swing v n t) m idle
  -- dequeue
  dequeue : Move m idle m deq_head
  load_head : Move m deq_head m (deq_tail m.head)
  load_deq_tail : {h : ℕ} → Move m (deq_tail h) m (deq_next h m.tail)
  load_deq_next : {h t : ℕ} → Move m (deq_next h t) m (deq_check h t (m.cell h).next)
  found_empty : {h t : ℕ} → h ≡ m.head → h ≡ t → Move m (deq_check h t none) m (dequeued none)
  found_behind : {h t x : ℕ} → h ≡ m.head → h ≡ t → Move m (deq_check h t (some x)) m (deq_help t x)
  found_next : {h t x : ℕ} → h ≡ m.head → h ≢ t → Move m (deq_check h t (some x)) m (deq_read h x)
  found_null : {h t : ℕ} → h ≡ m.head → h ≢ t → Move m (deq_check h t none) m null_read
  found_stale : {h t : ℕ} {x : Option ℕ} → h ≢ m.head → Move m (deq_check h t x) m deq_head
  deq_help_done : {t x : ℕ} → m.tail ≡ t → Move m (deq_help t x) (record m { tail = x }) deq_head
  deq_help_failed : {t x : ℕ} → Move m (deq_help t x) m deq_head
  read_datum : {h x : ℕ} → Move m (deq_read h x) m (deq_move h x (m.cell x).datum)
  move_done :
      {h x : ℕ} {r : Option A}
      → m.head ≡ h
      → Move m (deq_move h x r) (record m { head = x }) (deq_delete h r)
  move_failed : {h x : ℕ} {r : Option A} → Move m (deq_move h x r) m deq_head
  delete_head : {h : ℕ} {r : Option A} → Move m (deq_delete h r) (delete m h) (dequeued r)
  dequeue_return : {r : Option A} → Move m (dequeued r) m idle
  -- empty
  empty : Move m idle m (empty_tail m.head)
  load_empty_tail : {h : ℕ} → Move m (empty_tail h) m (empty_next h m.tail)
  tell_empty : {h t : ℕ} → h ≡ t → (m.cell h).next ≡ none → Move m (empty_next h t) m (told true)
  tell_more : {h t x : ℕ} → (m.cell h).next ≡ some x → Move m (empty_next h t) m (told false)
  tell_apart : {h t : ℕ} → h ≢ t → Move m (empty_next h t) m (told false)
  empty_return : {b : Bool} → Move m (told b) m idle

-- Any number of threads over one queue; a thread that never moves stays `idle`.
pub record System (A : Type 0) : Type 0 where
  pub mem : Shared A
  pub pc : ℕ → Pc A

pub data Step {A : Type 0} (s : System A) : System A → Type 0 where
  pick :
      (i : ℕ) {m : Shared A} {p : Pc A}
      → Move s.mem (s.pc i) m p
      → Step s (record { mem = m; pc = update s.pc i p })

abbrev pub init : (A : Type 0) → System A
init A = record { mem = construct A; pc = λ _. Pc.idle }

pub data Reach {A : Type 0} : System A → Type 0 where
  start : Reach (init A)
  later : {s t : System A} → Reach s → Step s t → Reach t
