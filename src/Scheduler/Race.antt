-- ===== src/Scheduler/Race.antt =====
-- src/scheduler/scheduler.cpp: getIdleCoroutine asks whether the pool is empty and then takes from it, in two operations.
use qc.Base.{
  ℕ, ◌<◌, ◌≡◌, ◌≢◌, refl, sym, ap, ◌∙◌, subst, if_pos, if_neg, ℕ_discrete, Bool, true, List, [],
  ◌∷◌, update, arith,
}
use qc.Coroutine.{Status, returns, is_finished}
use qc.Coroutine.Lifecycle.{finished-reset}
use qc.Scheduler.{Scheduler}
use qc.Scheduler.Worker.{Worker, pool_check, pool_take, resuming, null_call, reuse_coro, work}
use qc.Scheduler.Invariant.{Crew, works, in_pool}
use qc.Scheduler.Safety.{Reach, later, Reach-Inv}

module _ {F : Type 0} where
  -- Worker `k` takes its step, whose result is known.
  go :
      {s : Crew F}
      → Reach s
      → (k : ℕ) → k < s.sched.threads_count
      → (v : Worker F) → s.workers k ≡ v
      → (r : Scheduler F × Worker F) → work k s.sched v returns ≡ r
      → Reach (record { sched = r.0; workers = update s.workers k r.1; in_flight = s.in_flight })
  go {s} reach k lt v e r h =
      subst
        (λ x.
          Reach (record { sched = x.0; workers = update s.workers k x.1; in_flight = s.in_flight }))
        (ap (λ v. work k s.sched v returns) e ∙ h) (later reach (works k returns lt (λ q. cc)))

  here : (w : ℕ → Worker F) (k : ℕ) (v : Worker F) → update w k v k ≡ v
  here w k v = if_pos (ℕ_discrete k k) refl v (w k)

  there : (w : ℕ → Worker F) (k j : ℕ) (v : Worker F) → k ≢ j → update w k v j ≡ w j
  there w k j v ne = if_neg (ℕ_discrete k j) ne v (w j)

  checks :
      (k : ℕ) (s : Scheduler F) (c : ℕ) (cs : List ℕ) (d : Bool) (f : F)
      → s.coro_pool ≡ c ∷ cs
      → work k s (pool_check d f) returns ≡ (s, pool_take d f)
  unfolding work
  checks k s c cs d f e = rw e refl

  takes :
      (k : ℕ) (s : Scheduler F) (c : ℕ) (cs : List ℕ) (d : Bool) (f : F)
      → s.coro_pool ≡ c ∷ cs
      → is_finished (s.coros c).status ≡ true
      → work k s (pool_take d f) returns ≡ (
        record s {
          coro_pool = cs;
          coros = update s.coros c (record (s.coros c) { cb = f; status = Status.rady });
        },
        resuming d c,
      )
  unfolding work
  takes k s c cs d f e fin =
      rw (e, reuse_coro, (finished-reset (s.coros c) (s.locals k) f returns fin).0) refl

  misses :
      (k : ℕ) (s : Scheduler F) (d : Bool) (f : F)
      → s.coro_pool ≡ []
      → work k s (pool_take d f) returns ≡ (s, null_call)
  unfolding work
  misses k s d f e = rw e refl

  -- If two workers are about to look for an idle coroutine and the pool has one only, then both may
  -- see a pool that is not empty, and the second calls `reset` through a null pointer.
  pub pool_race :
      {s : Crew F}
      → Reach s
      → (k j c : ℕ) (d e : Bool) (f g : F) → k ≢ j
      → k < s.sched.threads_count
      → j < s.sched.threads_count
      → s.sched.coro_pool ≡ c ∷ []
      → s.workers k ≡ pool_check d f
      → s.workers j ≡ pool_check e g
      → (t : Crew F) × Reach t × (t.workers k ≡ null_call) × (t.workers j ≡ resuming e c)
  unfolding in_pool
  pool_race {s} reach k j c d e f g ne lk lj pool wk wj =
      let s1 = go reach k lk (pool_check d f) wk _ (checks k s.sched c [] d f pool) in
      let s2 =
        go s1 j lj (pool_check e g) (there s.workers k j (pool_take d f) ne ∙ wj) _
          (checks j s.sched c [] e g pool) in
      let fin = (Reach-Inv reach).pooled c (rw pool (ground arith)) in
      let w1 = update s.workers k (pool_take d f) in
      let w2 = update w1 j (pool_take e g) in
      let s3 =
        go s2 j lj (pool_take e g) (here w1 j (pool_take e g)) _
          (takes j s.sched c [] e g pool fin) in
      let w3 = update w2 j (resuming e c) in
      let at_k =
        there w2 j k (resuming e c) (λ q. ne (sym q))
        ∙ there w1 j k (pool_take e g) (λ q. ne (sym q))
        ∙ here s.workers k (pool_take d f) in
      let s4 = go s3 k lk (pool_take d f) at_k _ (misses k _ d f refl) in
      (_, s4, here w3 k null_call, there w3 k j null_call ne ∙ here w2 j (resuming e c))
