-- ===== src/LockFreeQueue/ReuseTests.antt =====
-- A use of the queue in which a node is handed out again between a read and the compare-exchange after it.
use qc.Base.{ℕ, refl, some, [], ◌∷◌, ℕ_discrete}
use qc.LockFreeQueue.Machine.{
  System, new_node, load_tail, load_next, check_last, link_done, swing_done, dequeue, load_head,
  load_deq_tail, load_deq_next, found_next, read_datum, move_done, delete_head, dequeue_return,
}
use qc.LockFreeQueue.Reuse.{Usage, begun, moves, reuses}

-- Thread 0 has put 7 in.
abbrev filled : (s : System ℕ) × Usage s (some 7 ∷ []) []
unfolding ℕ_discrete
filled = (
  _,
  moves
      (moves
        (moves (moves (moves (moves begun 0 (new_node (some 7))) 0 load_tail) 0 load_next) 0
          (check_last refl))
        0 (link_done refl))
      0 (swing_done refl),
)

-- Thread 1 has read 7, and has yet to move head from node 0 to node 1.
abbrev slow : (s : System ℕ) × Usage s (some 7 ∷ []) []
unfolding ℕ_discrete
slow = (
  _,
  moves
      (moves
        (moves (moves (moves (moves filled.1 1 dequeue) 1 load_head) 1 load_deq_tail) 1
          load_deq_next)
        1 (found_next refl (λ e. cc)))
      1 read_datum,
)

-- Thread 0 takes 7 out, and deletes node 0.
abbrev taken_once : (s : System ℕ) × Usage s (some 7 ∷ []) (some 7 ∷ [])
unfolding ℕ_discrete
taken_once = (
  _,
  moves
      (moves
        (moves
          (moves
            (moves
              (moves (moves (moves (moves slow.1 0 dequeue) 0 load_head) 0 load_deq_tail) 0
                load_deq_next)
              0 (found_next refl (λ e. cc)))
            0 read_datum)
          0 (move_done refl))
        0 delete_head)
      0 dequeue_return,
)

-- It puts 8 in, with node 0 again.
abbrev refilled : (s : System ℕ) × Usage s (some 7 ∷ some 8 ∷ []) (some 7 ∷ [])
unfolding ℕ_discrete
refilled = (
  _,
  moves
      (moves
        (moves (moves (moves (reuses taken_once.1 0 0 (some 8) refl refl) 0 load_tail) 0 load_next)
          0 (check_last refl))
        0 (link_done refl))
      0 (swing_done refl),
)

-- It takes 8 out: head is node 0, and thread 1 moves it to node 1.
taken_twice : (s : System ℕ) × Usage s (some 7 ∷ some 8 ∷ []) (some 7 ∷ some 8 ∷ some 7 ∷ [])
unfolding ℕ_discrete
taken_twice = (
  _,
  moves
      (moves
        (moves
          (moves
            (moves (moves (moves (moves refilled.1 0 dequeue) 0 load_head) 0 load_deq_tail) 0
              load_deq_next)
            0 (found_next refl (λ e. cc)))
          0 read_datum)
        0 (move_done refl))
      1 (move_done refl),
)
