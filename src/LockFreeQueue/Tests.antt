-- ===== src/LockFreeQueue/Tests.antt =====
-- Runs of the queue at concrete values, and the theorems at these runs.
use qc.LockFreeQueue.Progress.{QuietRun, still, next, helped, QuietRun-bound}
use qc.Base.{
  ◌+◌, ℕ, ◌<◌, ◌≤◌, ◌*◌, arith, ◌≡◌, refl, sym, subst, true, Option, none, some, List, [], ◌∷◌,
  ◌++◌, ℕ_discrete,
}
use qc.LockFreeQueue.Machine.{
  Shared, Pc, Move, set_next, idle, deq_next, deq_delete, empty_next, System, init, dequeue,
  load_head, load_deq_tail, empty, load_empty_tail, load_deq_next, found_next, read_datum,
  move_done, construct, new_node, load_tail, load_next, check_last, link_done, swing_done,
}
use qc.LockFreeQueue.Contents.{Contents}
use qc.LockFreeQueue.History.{Run, begin, after, Run-fifo}
use qc.LockFreeQueue.Destruction.{destroy}
use qc.LockFreeQueue.Reuse.{
  Usage, begun, moves, NoReuse, acts_on_list, first_in_first_out, destroys_all,
}
use qc.LockFreeQueue.Alone.{Alone, Solo-Alone, stay, go}
use qc.LockFreeQueue.Calls.{enqueue_returns, use_after_delete}

-- Thread 0 has enqueued 7.
abbrev seven : (m : Shared ℕ) × Alone 0 (init ℕ) m idle (some 7 ∷ []) []
seven = enqueue_returns {A = ℕ} begin 0 refl (some 7)

abbrev loaded : System ℕ
loaded = seven.1.0

loaded-Contents : Contents loaded.mem (some 7 ∷ [])
loaded-Contents = let (vs, c, e) = Run-fifo seven.1.1 in subst (Contents loaded.mem) (sym e) c

-- Thread 1 asks whether the new queue is empty.
abbrev asking : Alone 1 (init ℕ) (construct ℕ) (empty_next 0 0) [] []
asking = Solo-Alone begin 1 refl (go (go stay empty) load_empty_tail)

-- Thread 1 takes from the new queue.
abbrev taking : Alone 1 (init ℕ) (construct ℕ) (deq_next 0 0) [] []
taking = Solo-Alone begin 1 refl (go (go (go stay dequeue) load_head) load_deq_tail)

use_after_delete_example :
    (t : System ℕ) × Run t (some 7 ∷ []) (some 7 ∷ [])
    × ((h tail : ℕ) × (t.pc 1 ≡ deq_next h tail) × (t.mem.deleted h ≡ true))
use_after_delete_example =
    use_after_delete seven.1.1 0 1 (λ e. cc) seven.1.3 (seven.1.4 1 (λ e. cc)) (some 7) []
      loaded-Contents

-- Thread 0 has put 7 in, and taken it out again up to the `delete` of the first dummy.
leaving : (m : Shared ℕ) × Alone 0 (init ℕ) m (deq_delete 0 (some 7)) (some 7 ∷ []) (some 7 ∷ [])
unfolding ℕ_discrete
leaving = (
  _,
  Solo-Alone begin 0 refl (
      go
        (go
          (go
            (go
              (go
                (go
                  (go
                    (go
                      (go
                        (go (go (go (go stay (new_node (some 7))) load_tail) load_next)
                          (check_last refl))
                        (link_done refl))
                      (swing_done refl))
                    dequeue)
                  load_head)
                load_deq_tail)
              load_deq_next)
            (found_next refl (λ e. cc)))
          read_datum)
        (move_done refl)),
)

all_idle : (j : ℕ) → loaded.pc j ≡ idle
all_idle j = elim (ℕ_discrete 0 j) [
  | yes e ↦ subst (λ k. loaded.pc k ≡ idle) e seven.1.3
  | no ne ↦ seven.1.4 j ne
]

-- What a thread does alone, as a use of the queue that reuses nothing.
abbrev Kept : {A : Type 0} → System A → List (Option A) → List (Option A) → Type 0
Kept s linked taken = (u : Usage s linked taken) × NoReuse u

kept :
    {A : Type 0} {s : System A} {linked taken : List (Option A)}
    → Run s linked taken
    → Kept s linked taken
kept begin = (begun, tt)
kept (after r i mv) = let (u, k) = kept r in (moves u i mv, k)

loaded-Kept : Kept loaded (some 7 ∷ []) []
loaded-Kept = kept seven.1.1

destroys_all_example :
    (m : Shared ℕ) × (destroy 3 loaded.mem (some loaded.mem.head) ≡ some m)
    × ((a : ℕ) → a < loaded.mem.fresh → m.deleted a ≡ true)
destroys_all_example =
    destroys_all loaded-Kept.0 loaded-Kept.1 all_idle (some 7 ∷ []) loaded-Contents

first_in_first_out_example :
    (vs : List (Option ℕ)) × Contents loaded.mem vs × (some 7 ∷ [] ≡ [] ++ vs)
first_in_first_out_example = first_in_first_out loaded-Kept.0 loaded-Kept.1

-- Thread 0 is about to link its node to the dummy.
abbrev linking :
    (s : System ℕ) × (u : Usage s [] []) × NoReuse u
    × (s.pc 0 ≡ Pc.enq_link (some 7) 1 0)
    × ((s.mem.cell 0).next ≡ none)
unfolding ℕ_discrete
linking = (
  _,
  moves (moves (moves (moves begun 0 (new_node (some 7))) 0 load_tail) 0 load_next) 0
      (check_last refl),
  tt,
  refl,
  refl,
)

acts_on_list_example :
    (ws : List (Option ℕ)) × Contents (set_next linking.0.mem 0 1) ws
    × ([] ++ some 7 ∷ [] ≡ [] ++ ws)
unfolding ℕ_discrete
acts_on_list_example = acts_on_list linking.1 linking.2 0 (link_done linking.4) [] linking.4

-- Then thread 0 has linked its node and not moved tail yet; thread 1 has a node too, finds tail behind, and
-- moves it.
abbrev behind : (s : System ℕ) × Kept s (some 7 ∷ []) []
unfolding ℕ_discrete
behind = (_, (moves (moves linking.1 0 (link_done refl)) 1 (new_node (some 8)), tt))

abbrev helping : (t : System ℕ) × QuietRun 2 behind.0 t 4
unfolding ℕ_discrete
helping = (
  _,
  helped
      (next (next (next still 1 (omega arith) Move.load_tail tt) 1 (omega arith) Move.load_next tt)
        1 (omega arith) (Move.check_behind refl) tt)
      1 (omega arith) (Move.help_done refl) refl,
)

QuietRun-bound_example : 4 ≤ 16 * 2 + 1
QuietRun-bound_example = QuietRun-bound behind.1.0 behind.1.1 helping.1
