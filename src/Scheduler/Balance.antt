-- ===== src/Scheduler/Balance.antt =====
-- src/scheduler/scheduler.cpp, `run`: the callbacks of the tasks in the queues and with the workers, over
-- one step.
use qc.Base.{
  ℕ, suc, ◌+◌, ◌%◌, ◌<◌, ◌≡◌, ◌≢◌, refl, ap, sym, ◌∙◌, fun_ext, inl, inr, Bool, true, false, Option,
  none, some, List, [], ◌∷◌, ◌++◌, ◌==◌, ltb, update, update-elim, sum, sum-update, sum_agree,
  le-sum, arith, Bool-cases, Option-cases,
}
use qc.Coroutine.{Coroutine, construct, reset, resume, Outcome, is_finished}
use qc.Scheduler.{Task, Scheduler, is_empty, coro_task}
use qc.Scheduler.Worker.{
  Worker, looping, pick_own, take_own, pick_global, take_global, pick_steal, take_steal, picked,
  pool_check, pool_take, resuming, settling, exited, null_call, assertion, again, begin_task,
  take_from, take_any, steal_from, reuse_coro, resume_coro, settle, work,
}
use qc.Scheduler.Invariant.{Holds, Inv, refs_in, held, is_ref, in_pool}
use qc.Scheduler.Weight.{
  reset-cb, resume-cb, task_weight, load, busy, total, callbacks, outstanding, weigh, load-append,
  load-off, busy-off, finishes, has_failed,
}

module _ {F : Type 0} (φ : F → ℕ) {s : Scheduler F} {w : ℕ → Worker F} {flying : List (Task F)}
    (inv : Inv s w flying) (k : ℕ) (lt : k < s.threads_count) where
  abbrev g : ℕ → F
  g = callbacks φ s

  abbrev Balance : ℕ → Scheduler F × Worker F → Type 0
  Balance n r = outstanding φ r.0 (update w k r.1) flying + n ≡ outstanding φ s w flying

  busy-update :
      (h : ℕ → F) (v : Worker F)
      → sum s.threads_count (λ j. busy φ h (update w k v j)) + busy φ h (w k)
        ≡ sum s.threads_count (λ j. busy φ h (w j)) + busy φ h v
  busy-update h v = sum-update (busy φ h) s.threads_count w k v lt

  queue-update :
      (j : ℕ) (ts : List (Task F))
      → j < s.threads_count
      → sum s.threads_count (λ i. load φ g (update s.thread_tasks j ts i))
          + load φ g (s.thread_tasks j)
        ≡ sum s.threads_count (λ i. load φ g (s.thread_tasks i)) + load φ g ts
  queue-update j ts lj = sum-update (load φ g) s.threads_count s.thread_tasks j ts lj

  move-Balance : (v : Worker F) → busy φ g v ≡ busy φ g (w k) → Balance 0 (s, v)
  move-Balance v e = omega (arith, busy-update g v)

  take-Balance :
      (j : ℕ) (d : Bool) (ts : List (Task F))
      → j < s.threads_count
      → s.thread_tasks j ≡ ts
      → busy φ g (w k) ≡ 0
      → Balance 0 (take_from j s d)
  unfolding load
  take-Balance j d [] lj e z = rw (e, take_from) (move-Balance (picked d none) (sym z))
  take-Balance j d (t ∷ ts) lj e z =
      rw (e, take_from)
        (omega (arith, busy-update g (picked d (some t)), queue-update j ts lj, ap (load φ g) e, z))

  any-Balance :
      (d : Bool) (ts : List (Task F))
      → s.global_tasks ≡ ts
      → busy φ g (w k) ≡ 0
      → Balance 0 (take_any s d)
  unfolding load
  any-Balance d [] e z =
      rw (e, take_any) (omega (arith, busy-update g (picked d none), ap (load φ g) e, z))
  any-Balance d (t ∷ ts) e z =
      rw (e, take_any) (omega (arith, busy-update g (picked d (some t)), ap (load φ g) e, z))

  begin_some-Balance :
      (d : Bool) (t : Task F) (cb : Option F) (coro : Option ℕ)
      → t.cb ≡ cb
      → t.coro ≡ coro
      → w k ≡ picked d (some t)
      → Balance 0 (begin_task s d (some t))
  begin_some-Balance d t (some f) coro b q e =
      rw (b, begin_task)
        (move-Balance (pool_check d f) (sym (ap (busy φ g) e ∙ rw (b, task_weight) refl)))
  begin_some-Balance d t none none b q e =
      rw (b, q, begin_task)
        (move-Balance null_call (sym (ap (busy φ g) e ∙ rw (b, q, task_weight) refl)))
  begin_some-Balance d t none (some c) b q e =
      rw (b, q, begin_task)
        (move-Balance (resuming d c) (sym (ap (busy φ g) e ∙ rw (b, q, task_weight) refl)))

  steal-Balance : (d : Bool) (i : ℕ) → busy φ g (w k) ≡ 0 → Balance 0 (steal_from k s d i)
  steal-Balance d i z =
      let idx = (k + 1 + i) % s.threads_count in
      let onward : Balance 0 (s, pick_steal d (suc i)) =
        move-Balance (pick_steal d (suc i)) (sym z) in
      elim (Bool-cases (ltb i s.threads_count)) [
        | inr e ↦ rw (e, steal_from) (move-Balance (picked d none) (sym z))
        | inl e ↦ elim (Bool-cases (idx == k)) [
          | inl f ↦ rw (e, f, steal_from) onward
          | inr f ↦ elim (Bool-cases (is_empty (s.thread_tasks idx))) [
            | inl q ↦ rw (e, f, q, steal_from) onward
            | inr q ↦ rw (e, f, q, steal_from) (move-Balance (take_steal d idx) (sym z))
          ]
        ]
      ]

  begin-Balance : (d : Bool) (t : Option (Task F)) → w k ≡ picked d t → Balance 0 (begin_task s d t)
  begin-Balance false none e = move-Balance looping (sym (ap (busy φ g) e))
  begin-Balance true none e = move-Balance exited (sym (ap (busy φ g) e))
  begin-Balance d (some t) e = begin_some-Balance d t t.cb t.coro refl refl e

  -- A coroutine that nothing refers to changes, and the worker goes on to resume it.
  swap-Balance :
      (d : Bool) (c : ℕ) (co : Coroutine F) (f : F)
      → co.cb ≡ f
      → busy φ g (w k) ≡ φ f
      → sum s.threads_count (λ j. refs_in c (s.thread_tasks j))
          + sum s.threads_count (λ j. held c (w j))
        ≡ 0
      → total φ
          (λ b. (update s.coros c co b).cb)
          s.threads_count
          s.thread_tasks
          s.global_tasks
          (update w k (resuming d c))
          flying
        ≡ outstanding φ s w flying
  swap-Balance d c co f e z none_refer =
      let h : ℕ → F = λ b. (update s.coros c co b).cb in
      let off : (b : ℕ) → b ≢ c → h b ≡ g b = λ b ne.
        update-elim (λ x. x.cb ≡ g b) s.coros c co b (λ q. absurd (ne (sym q))) (λ _. refl) in
      let at : h c ≡ f =
        update-elim (λ x. x.cb ≡ f) s.coros c co c (λ _. e) (λ ne. absurd (ne refl)) in
      let queues =
        sum_agree s.threads_count (λ j. load φ h (s.thread_tasks j))
          (λ j. load φ g (s.thread_tasks j))
          (λ j lj. load-off φ c g h off (s.thread_tasks j) (
            omega (
              arith,
              none_refer,
              le-sum s.threads_count (λ i. refs_in c (s.thread_tasks i)) j lj,
            ))) in
      let hold : (j : ℕ) → j < s.threads_count → busy φ h (w j) ≡ busy φ g (w j) = λ j lj.
        busy-off φ c g h off (w j)
          (omega (arith, none_refer, le-sum s.threads_count (λ i. held c (w i)) j lj)) in
      let workers = sum_agree s.threads_count (λ j. busy φ h (w j)) (λ j. busy φ g (w j)) hold in
      omega (
        arith,
        queues,
        workers,
        hold k lt,
        busy-update h (resuming d c),
        ap φ at,
        z,
        load-off φ c g h off s.global_tasks (omega (arith, inv.calls c)),
        load-off φ c g h off flying (omega (arith, inv.calls c)),
      )

  reuse-Balance :
      (d : Bool) (f : F) (cs : List ℕ)
      → s.coro_pool ≡ cs
      → busy φ g (w k) ≡ φ f
      → has_failed (reuse_coro s d f).1 ≡ false
      → Balance 0 (reuse_coro s d f)
  unfolding in_pool reset
  reuse-Balance d f [] e z ok =
      absurd (let bad : has_failed (reuse_coro s d f).1 ≡ true = rw (e, reuse_coro) refl in cc)
  reuse-Balance d f (c ∷ cs) e z ok = elim (Option-cases (reset f (s.coros c))) [
    | inl q ↦
        absurd (let bad : has_failed (reuse_coro s d f).1 ≡ true = rw (e, q, reuse_coro) refl in cc)
    | inr (co, q) ↦
        let in_front : in_pool c s.coro_pool ≡ is_ref c c + in_pool c cs = rw e refl in
        rw (e, q, reuse_coro)
          (omega (
            arith,
            swap-Balance d c co f (reset-cb f (s.coros c) co q) z
                (ground (arith, in_front, inv.single c)),
          ))
  ]

  pool-Balance :
      (d : Bool) (f : F) (o : Outcome)
      → busy φ g (w k) ≡ φ f
      → Balance 0 (work k s (pool_check d f) o)
  unfolding work construct
  pool-Balance d f o z = elim (Bool-cases (is_empty s.coro_pool)) [
    | inl e ↦
        let (co, l, id) = construct f 0 s.coro_id (s.locals k) in
        rw e (omega (arith, swap-Balance d s.fresh co f refl z (ground (arith, inv.known s.fresh))))
    | inr e ↦ rw e (move-Balance (pool_take d f) (sym z))
  ]

  resume-Balance :
      (d : Bool) (c : ℕ) (o : Outcome)
      → busy φ g (w k) ≡ φ (g c)
      → has_failed (resume_coro k s d c o).1 ≡ false
      → Balance 0 (resume_coro k s d c o)
  resume-Balance d c o z ok = elim (Option-cases (resume o (s.coros c) (s.locals k))) [
    | inl q ↦
        absurd
          (let bad : has_failed (resume_coro k s d c o).1 ≡ true = rw (q, resume_coro) refl in cc)
    | inr (r, q) ↦
        let h : ℕ → F = λ b. (update s.coros c r.0 b).cb in
        let same : h ≡ g = fun_ext (λ b.
          update-elim (λ x. x.cb ≡ g b) s.coros c r.0 b
            (λ e. resume-cb o (s.coros c) (s.locals k) r q ∙ ap g e) (λ _. refl)) in
        let kept =
          ap
            (λ i.
              total φ i s.threads_count s.thread_tasks s.global_tasks (update w k (settling d c))
                flying)
            same in
        rw (q, resume_coro) (omega (arith, kept, busy-update g (settling d c), z))
  ]

  again-idle : (d : Bool) → busy φ g (again {F = F} d) ≡ 0
  again-idle true = refl
  again-idle false = refl

  settle-Balance :
      (d : Bool) (c : ℕ)
      → busy φ g (w k) ≡ φ (g c)
      → Balance (weigh φ (finishes s (settling d c))) (settle k s d c)
  unfolding weigh load
  settle-Balance d c z = elim (Bool-cases (is_finished (s.coros c).status)) [
    | inl e ↦ rw (e, settle) (omega (arith, busy-update g (again d), again-idle d, z))
    | inr e ↦
        rw (e, settle)
          (omega (
            arith,
            busy-update g (again d),
            again-idle d,
            z,
            queue-update k (s.thread_tasks k ++ coro_task c ∷ []) lt,
            load-append φ g (s.thread_tasks k) (coro_task c ∷ []),
          ))
  ]

  -- A step of a worker that does not fail keeps all callbacks, but for that of a task that it finishes.
  pub work-Balance :
      (v : Worker F) (o : Outcome)
      → w k ≡ v
      → Holds s v
      → has_failed (work k s v o).1 ≡ false
      → Balance (weigh φ (finishes s v)) (work k s v o)
  unfolding work weigh
  work-Balance looping o e h ok = move-Balance (pick_own s.stopped) (sym (ap (busy φ g) e))
  work-Balance (pick_own d) o e h ok = elim (Bool-cases (is_empty (s.thread_tasks k))) [
    | inl q ↦ rw q (move-Balance (pick_global d) (sym (ap (busy φ g) e)))
    | inr q ↦ rw q (move-Balance (take_own d) (sym (ap (busy φ g) e)))
  ]
  work-Balance (take_own d) o e h ok = take-Balance k d (s.thread_tasks k) lt refl (ap (busy φ g) e)
  work-Balance (pick_global d) o e h ok = elim (Bool-cases (is_empty s.global_tasks)) [
    | inl q ↦ rw q (move-Balance (pick_steal d 0) (sym (ap (busy φ g) e)))
    | inr q ↦ rw q (move-Balance (take_global d) (sym (ap (busy φ g) e)))
  ]
  work-Balance (take_global d) o e h ok = any-Balance d s.global_tasks refl (ap (busy φ g) e)
  work-Balance (pick_steal d i) o e h ok = steal-Balance d i (ap (busy φ g) e)
  work-Balance (take_steal d idx) o e h ok =
      take-Balance idx d (s.thread_tasks idx) h refl (ap (busy φ g) e)
  work-Balance (picked d t) o e h ok = begin-Balance d t e
  work-Balance (pool_check d f) o e h ok = pool-Balance d f o (ap (busy φ g) e)
  work-Balance (pool_take d f) o e h ok = reuse-Balance d f s.coro_pool refl (ap (busy φ g) e) ok
  work-Balance (resuming d c) o e h ok = resume-Balance d c o (ap (busy φ g) e) ok
  work-Balance (settling d c) o e h ok = settle-Balance d c (ap (busy φ g) e)
  work-Balance exited o e h ok = move-Balance exited (sym (ap (busy φ g) e))
  work-Balance null_call o e h ok = move-Balance null_call (sym (ap (busy φ g) e))
  work-Balance assertion o e h ok = absurd h
