-- ===== src/LockFreeQueue/Reuse.antt =====
-- include/qc/thread/lockfreequeue.h with memory that may be used again: `new Node` may give the address of a
-- deleted node, and what a deleted node has in it may change.
use qc.Base.{ℕ, suc, ◌<◌, ◌≡◌, true, false, Option, none, some, List, [], ◌++◌, update, length}
use qc.LockFreeQueue.Machine.{Node, Shared, Pc, idle, enq_tail, Move, System, init}
use qc.LockFreeQueue.Contents.{Contents, put_by, taken_by}
use qc.LockFreeQueue.History.{Run, begin, after, Run-fifo, list_refinement}
use qc.LockFreeQueue.Destruction.{destroy, destroy_lem}

module _ {A : Type 0} where
  abbrev pub reallocate : Shared A → Option A → ℕ → Shared A
  reallocate m v a = record m {
    cell = update m.cell a (record { datum = v; next = none });
    deleted = update m.deleted a false;
  }

  -- What any threads may come to, with the values linked and the values taken so far, oldest first.
  pub data Usage : System A → List (Option A) → List (Option A) → Type 0 where
    begun : Usage (init A) [] []
    moves :
        {s : System A} {linked taken : List (Option A)} {m : Shared A} {p : Pc A}
        → Usage s linked taken
        → (i : ℕ) → Move s.mem (s.pc i) m p
        → Usage
            (record { mem = m; pc = update s.pc i p })
            (linked ++ put_by (s.pc i) p)
            (taken ++ taken_by (s.pc i) p)
    reuses :
        {s : System A} {linked taken : List (Option A)}
        → Usage s linked taken
        → (i a : ℕ) (v : Option A) → s.pc i ≡ idle
        → s.mem.deleted a ≡ true
        → Usage
            (record { mem = reallocate s.mem v a; pc = update s.pc i (enq_tail v a) })
            linked
            taken
    overwrites :
        {s : System A} {linked taken : List (Option A)}
        → Usage s linked taken
        → (a : ℕ) (n : Node A) → s.mem.deleted a ≡ true
        → Usage (record s { mem = record s.mem { cell = update s.mem.cell a n } }) linked taken

  -- No deleted node is handed out again or changes.
  abbrev pub NoReuse :
      {s : System A} {linked taken : List (Option A)} → Usage s linked taken → Type 0
  NoReuse begun = Unit
  NoReuse (moves u i mv) = NoReuse u
  NoReuse (reuses u i a v e d) = ⊥
  NoReuse (overwrites u a n d) = ⊥

  pub NoReuse-Run :
      {s : System A} {linked taken : List (Option A)} (u : Usage s linked taken)
      → NoReuse u
      → Run s linked taken
  NoReuse-Run begun kept = begin
  NoReuse-Run (moves u i mv) kept = after (NoReuse-Run u kept) i mv
  NoReuse-Run (reuses u i a v e d) kept = absurd kept
  NoReuse-Run (overwrites u a n d) kept = absurd kept

  -- As long as no deleted node is handed out again or changes: in every reachable state a step of any
  -- thread acts on the list that the queue holds as the operation does: linking appends the value of the
  -- call, moving head removes the front value, which is the one that the call will return, and every
  -- other step leaves the list as it is.
  pub acts_on_list :
      {s : System A} {linked taken : List (Option A)} (u : Usage s linked taken)
      → NoReuse u
      → (i : ℕ) {m : Shared A} {p : Pc A} → Move s.mem (s.pc i) m p
      → (vs : List (Option A)) → Contents s.mem vs
      → (ws : List (Option A)) × Contents m ws
        × (vs ++ put_by (s.pc i) p ≡ taken_by (s.pc i) p ++ ws)
  acts_on_list u kept i mv vs c = list_refinement (NoReuse-Run u kept) i mv vs c

  -- As long as no deleted node is handed out again or changes: whatever any threads do, the values linked
  -- so far are the values taken so far followed by the values in the queue.
  pub first_in_first_out :
      {s : System A} {linked taken : List (Option A)} (u : Usage s linked taken)
      → NoReuse u
      → (vs : List (Option A)) × Contents s.mem vs × (linked ≡ taken ++ vs)
  first_in_first_out u kept = Run-fifo (NoReuse-Run u kept)

  -- If no deleted node was handed out again or changed, and no thread is in a call: the destructor, with
  -- fuel for the nodes that are left, ends; it meets no node that is deleted already, and after it every
  -- node that was ever made is deleted.
  pub destroys_all :
      {s : System A} {linked taken : List (Option A)} (u : Usage s linked taken)
      → NoReuse u
      → ((j : ℕ) → s.pc j ≡ idle)
      → (vs : List (Option A)) → Contents s.mem vs
      → (m : Shared A) × (destroy (suc (suc (length vs))) s.mem (some s.mem.head) ≡ some m)
        × ((a : ℕ) → a < s.mem.fresh → m.deleted a ≡ true)
  destroys_all u kept still vs c = destroy_lem (NoReuse-Run u kept) still vs c
