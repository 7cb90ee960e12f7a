-- ===== src/LockFreeQueue/Progress.antt =====
-- include/qc/thread/lockfreequeue.h: how many steps the threads can take with no call that gets on.
use qc.Base.{
  List, ℕ, suc, ◌+◌, ◌*◌, ◌<◌, ◌≤◌, ◌≡◌, refl, ap, fun_ext, Bool, true, false, Option, ◌==◌,
  if◌then◌else◌, update, sum, sum_bound, sum-update, arith,
}
use qc.LockFreeQueue.Machine.{Shared, Pc, Move, System}
use qc.LockFreeQueue.Invariant.{Ghost, Inv}
use qc.LockFreeQueue.Moves.{advance}
use qc.LockFreeQueue.Preserve.{Move-Inv}
use qc.LockFreeQueue.History.{Run-Inv}
use qc.LockFreeQueue.Reuse.{Usage, NoReuse, NoReuse-Run}
use qc.LockFreeQueue.Rank.{Quiet, rank, rank_bound, Quiet-rank}

-- While tail is behind, it can be helped once, after which all threads may have to start again.
abbrev help_left : ℕ → Ghost → ℕ
help_left k g = if g.size == g.last + 2 then 8 * k + 1 else 0

help_left_bound : (k : ℕ) (g : Ghost) → help_left k g ≤ 8 * k + 1
help_left_bound k g = ground arith

behind-help_left : (k : ℕ) (g : Ghost) → g.size ≡ g.last + 2 → help_left k g ≡ 8 * k + 1
behind-help_left k g e = ground arith

ahead-help_left : (k : ℕ) (g : Ghost) → g.size < g.last + 2 → help_left k g ≡ 0
ahead-help_left k g e = ground arith

module _ {A : Type 0} where
  -- A compare-exchange that moves tail for another thread.
  abbrev pub helps : {m m' : Shared A} {p p' : Pc A} → Move m p m' p' → Bool
  helps (Move.help_done e) = true
  helps (Move.deq_help_done e) = true
  helps _ = false

  -- Steps of the first `k` threads, in any interleaving, each quiet or a help, and their number.
  pub data QuietRun (k : ℕ) (s : System A) : System A → ℕ → Type 0 where
    still : QuietRun k s s 0
    next :
        {t : System A} {n : ℕ}
        → QuietRun k s t n
        → (i : ℕ) → i < k
        → {m : Shared A} {p : Pc A} (mv : Move t.mem (t.pc i) m p) → Quiet mv
        → QuietRun k s (record { mem = m; pc = update t.pc i p }) (suc n)
    helped :
        {t : System A} {n : ℕ}
        → QuietRun k s t n
        → (i : ℕ) → i < k
        → {m : Shared A} {p : Pc A} (mv : Move t.mem (t.pc i) m p) → helps mv ≡ true
        → QuietRun k s (record { mem = m; pc = update t.pc i p }) (suc n)

  abbrev ranks : ℕ → System A → ℕ
  ranks k s = sum k (λ j. rank s.mem (s.pc j))

  ranks_bound : (k : ℕ) (s : System A) → ranks k s ≤ 8 * k
  ranks_bound k s =
      omega (arith, sum_bound 8 k (λ j. rank s.mem (s.pc j)) (λ j. rank_bound s.mem (s.pc j)))

  Quiet-advance :
      {m m' : Shared A} {p p' : Pc A} (g : Ghost) (mv : Move m p m' p')
      → Quiet mv
      → advance g mv ≡ g
  unfolding advance
  Quiet-advance g (Move.link_done e) q = absurd q
  Quiet-advance g (Move.help_done e) q = absurd q
  Quiet-advance g (Move.swing_done e) q = absurd q
  Quiet-advance g (Move.deq_help_done e) q = absurd q
  Quiet-advance g (Move.move_done e) q = absurd q
  Quiet-advance g _ q = refl

  helps-advance :
      {m m' : Shared A} {p p' : Pc A} (g : Ghost) (mv : Move m p m' p')
      → helps mv ≡ true
      → ((advance g mv).last ≡ suc g.last) × ((advance g mv).size ≡ g.size)
  unfolding advance
  helps-advance g (Move.help_done e) q = (refl, refl)
  helps-advance g (Move.deq_help_done e) q = (refl, refl)
  helps-advance g _ q = cc

  QuietRun-falls :
      {k : ℕ} {s t : System A} {n : ℕ} (g : Ghost)
      → Inv g s.mem s.pc
      → QuietRun k s t n
      → (g' : Ghost) × Inv g' t.mem t.pc
        × (n + ranks k t + help_left k g' ≤ ranks k s + help_left k g)
  QuietRun-falls g inv still = (g, inv, omega arith)
  QuietRun-falls {k} {s} g inv (next {t} {n} r i h {m} {p} mv q) =
      let (g', inv', falls) = QuietRun-falls g inv r in
      let (less, kept) = Quiet-rank mv q in
      let same : sum k (λ j. rank m (update t.pc i p j))
          ≡ sum k (λ j. rank t.mem (update t.pc i p j)) =
        ap (λ f. sum k (λ j. f (update t.pc i p j))) (fun_ext kept) in
      let moved = sum-update (rank t.mem) k t.pc i p h in
      let steady = ap (help_left k) (Quiet-advance g' mv q) in
      (advance g' mv, Move-Inv inv' i mv, omega (arith, falls, same, moved, less, kept p, steady))
  QuietRun-falls {k} {s} g inv (helped {t} {n} r i h {m} {p} mv q) =
      let (g', inv', falls) = QuietRun-falls g inv r in
      let after = Move-Inv inv' i mv in
      let (last, size) = helps-advance g' mv q in
      let behind =
        behind-help_left k g' (omega (arith, after.shape.inside, inv'.shape.lag, last, size)) in
      let caught_up =
        ahead-help_left k (advance g' mv) (omega (arith, inv'.shape.lag, last, size)) in
      (
        advance g' mv,
        after,
        omega (
          arith,
          falls,
          behind,
          caught_up,
          ranks_bound k (record { mem = m; pc = update t.pc i p }),
        ),
      )

  -- As long as no deleted node is handed out again or changes: from every reachable state, k threads
  -- together take at most 16 * k + 1 steps, in any interleaving, before one of them starts or ends a call,
  -- links a node, moves head, or has a compare-exchange that fails though it finds the value that it
  -- expects.
  pub QuietRun-bound :
      {s : System A} {linked taken : List (Option A)} (u : Usage s linked taken)
      → NoReuse u
      → {k n : ℕ} {t : System A} → QuietRun k s t n
      → n ≤ 16 * k + 1
  QuietRun-bound {s} u kept {k} {n} {t} r =
      let (g, inv) = Run-Inv (NoReuse-Run u kept) in
      let (g', inv', falls) = QuietRun-falls g inv r in
      omega (arith, falls, ranks_bound k s, help_left_bound k g)
