-- ===== src/Scheduler/Tests.antt =====
-- The theorems about the scheduler at concrete values.
use qc.Base.{
  ltb, ltb→lt, Bool-cases, inl, inr, subst, sym, Bool, List, if◌then◌else◌, update, ℕ, ◌+◌, ◌≡◌,
  ◌≢◌, refl, false, none, some, [], ◌∷◌, sum, arith,
}
use qc.Coroutine.{Locals, Outcome, yields, returns}
use qc.Scheduler.{place, call_task, no_thread, Scheduler, new_scheduler, construct, start}
use qc.Scheduler.Worker.{looping, resuming, null_call, work}
use qc.Scheduler.Invariant.{Crew, Step, works, admit, deliver}
use qc.Scheduler.Safety.{Reach, started, later}
use qc.Scheduler.Race.{pool_race}
use qc.Scheduler.Weight.{weigh}
use qc.Scheduler.Conservation.{Ledger, opened, entry, pending, conserved}

abbrev pub no_locals : Locals
no_locals = record { cur_coro = none; coro_count = 0 }

abbrev pub two_threads : Scheduler ℕ
two_threads = new_scheduler 2 no_locals 0

-- Two workers that have started, and a callback that a call of `schedule` is about to queue.
abbrev pub opening : Crew ℕ
opening = record { sched = (start two_threads).0; workers = λ _. looping; in_flight = [] }

abbrev pub admitted_one : Crew ℕ
admitted_one = record opening { in_flight = call_task 7 no_thread ∷ [] }

pub opening-Reach : Reach opening
unfolding construct
opening-Reach = started 2 no_locals 0 refl

pub admit_one : Step opening admitted_one
unfolding start
admit_one = admit 7 no_thread refl

pub admitted_one-Reach : Reach admitted_one
admitted_one-Reach = later opening-Reach admit_one

admitted_one-Ledger : Ledger admitted_one (7 ∷ []) []
unfolding construct admit_one
admitted_one-Ledger = entry (opened 2 no_locals 0 refl) admit_one

conserved_example : weigh (λ f. f) (7 ∷ []) ≡ weigh (λ f. f) [] + pending (λ f. f) admitted_one
conserved_example = conserved (λ f. f) admitted_one-Ledger (λ k lk e. cc)

-- The workers take steps in the order given; every callback returns.
unfoldable pub turn : ℕ → Crew ℕ → Crew ℕ
unfolding work
turn k s =
    if ltb k s.sched.threads_count
    then record s {
      sched = (work k s.sched (s.workers k) returns).0;
      workers = update s.workers k (work k s.sched (s.workers k) returns).1;
    }
    else s

unfoldable pub play : List ℕ → Crew ℕ → Crew ℕ
unfolding turn
play [] s = s
play (k ∷ ks) s = play ks (turn k s)

turn-Reach : (k : ℕ) (s : Crew ℕ) → Reach s → Reach (turn k s)
unfolding turn
turn-Reach k s r = elim (Bool-cases (ltb k s.sched.threads_count)) [
  | inl e ↦ rw e (later r (works k returns (ltb→lt k s.sched.threads_count e) (λ q. cc)))
  | inr e ↦ rw e r
]

pub play-Reach : (ks : List ℕ) (s : Crew ℕ) → Reach s → Reach (play ks s)
unfolding play
play-Reach [] s r = r
play-Reach (k ∷ ks) s r = play-Reach ks (turn k s) (turn-Reach k s r)

abbrev pub submit : ℕ → Crew ℕ → Crew ℕ
submit f s = record {
  sched = place (call_task f no_thread) s.sched;
  workers = s.workers;
  in_flight = [];
}

pub submit-Reach :
    (f : ℕ) (s : Crew ℕ) → s.sched.stopped ≡ false → s.in_flight ≡ [] → Reach s → Reach (submit f s)
submit-Reach f s running e r =
    later (later r (admit f no_thread running)) (deliver [] (call_task f no_thread) [] (rw e refl))

-- Worker 0 runs one callback to its end, then both workers take up another.
abbrev ran_one : Crew ℕ
ran_one = play (0 ∷ 0 ∷ 0 ∷ 0 ∷ 0 ∷ 0 ∷ 0 ∷ 0 ∷ []) (submit 7 opening)

abbrev racing : Crew ℕ
racing = play (0 ∷ 0 ∷ 0 ∷ 0 ∷ 0 ∷ 1 ∷ 1 ∷ 1 ∷ 1 ∷ 1 ∷ []) (submit 9 (submit 8 ran_one))

racing-Reach : Reach racing
unfolding play start place qc.Base.ℕ_discrete qc.Coroutine.resume qc.Coroutine.construct
racing-Reach = play-Reach (0 ∷ 0 ∷ 0 ∷ 0 ∷ 0 ∷ 1 ∷ 1 ∷ 1 ∷ 1 ∷ 1 ∷ []) _ (
    submit-Reach 9 (submit 8 ran_one) refl refl (
      submit-Reach 8 ran_one refl refl (
        play-Reach (0 ∷ 0 ∷ 0 ∷ 0 ∷ 0 ∷ 0 ∷ 0 ∷ 0 ∷ []) (submit 7 opening)
          (submit-Reach 7 opening refl refl opening-Reach))))

pool_race_example :
    (t : Crew ℕ) × Reach t × (t.workers 0 ≡ null_call) × (t.workers 1 ≡ resuming false 0)
unfolding play start place qc.Base.ℕ_discrete qc.Coroutine.resume qc.Coroutine.construct
pool_race_example =
    pool_race racing-Reach 0 1 0 false false 8 9 (λ e. omega arith)
      (ltb→lt 0 racing.sched.threads_count refl) (ltb→lt 1 racing.sched.threads_count refl) refl
      refl refl
