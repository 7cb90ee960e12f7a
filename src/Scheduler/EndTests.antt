-- ===== src/Scheduler/EndTests.antt =====
-- The theorems about the end of the scheduler at concrete values.
use qc.Base.{
  ◌==◌, ltb, ltb→lt, Bool-cases, inl, inr, List, ℕ, zero, suc, ◌+◌, ◌*◌, ◌≤◌, ◌<◌, ◌≡◌, refl, true,
  false, none, some, [], ◌∷◌, length, arith, if◌then◌else◌, update,
}
use qc.Coroutine.{returns, Locals}
use qc.Scheduler.{call_task, no_thread, construct, start, stop, place}
use qc.Scheduler.Worker.{exited}
use qc.Scheduler.Invariant.{Crew, works, admit, deliver, stops}
use qc.Scheduler.Safety.{Reach, later}
use qc.Scheduler.Weight.{callbacks, load, weigh}
use qc.Scheduler.Conservation.{Ledger, opened, entry}
use qc.Scheduler.Cover.{global, size}
use qc.Scheduler.Drain.{Timely, drained}
use qc.Scheduler.Rank.{queued}
use qc.Scheduler.Winding.{Winding, rest, wind, Winding-bound}
use qc.Scheduler.Life.{Life, new_life, start_threads, stop_threads, end_threads, may_destroy}
use qc.Scheduler.Joining.{JoinedOnce, start_stop, failed_start}
use qc.Scheduler.Tests.{
  no_locals, opening, admitted_one, opening-Reach, admitted_one-Reach, play, turn, play-Reach,
  submit, submit-Reach,
}

-- A run with its counts of tasks taken on and finished.
abbrev Tally : Crew ℕ → Type 0
Tally s = (a : List ℕ) × (b : List ℕ) × (r : Ledger s a b) × Timely r

turn-Tally : (k : ℕ) (s : Crew ℕ) → Tally s → Tally (turn k s)
unfolding turn
turn-Tally k s (a, b, r, p) = elim (Bool-cases (ltb k s.sched.threads_count)) [
  | inl e ↦
      rw e (_, _, entry r (works k returns (ltb→lt k s.sched.threads_count e) (λ q. cc)), (p, tt))
  | inr e ↦ rw e (a, b, r, p)
]

play-Tally : (ks : List ℕ) (s : Crew ℕ) → Tally s → Tally (play ks s)
unfolding play
play-Tally [] s r = r
play-Tally (k ∷ ks) s r = play-Tally ks (turn k s) (turn-Tally k s r)

-- One task is queued, then `stop` is called, and both workers run to the end of `run`.
abbrev delivered : Crew ℕ
delivered = submit 7 opening

abbrev stopping : Crew ℕ
stopping = record delivered { sched = (stop delivered.sched).0 }

stopping-Tally : Tally stopping
unfolding construct start
stopping-Tally = (
  7 ∷ [],
  [],
  entry
      (entry (entry (opened 2 no_locals 0 refl) (admit 7 no_thread refl))
        (deliver [] (call_task 7 no_thread) [] refl))
      stops,
  (((tt, tt), refl), tt),
)

abbrev rounds : List ℕ
rounds = 0 ∷ 0 ∷ 0 ∷ 0 ∷ 0 ∷ 0 ∷ 0 ∷ 0 ∷ 0 ∷ 0 ∷ 0 ∷ 0 ∷ 0 ∷ 0 ∷ 1 ∷ 1 ∷ 1 ∷ 1 ∷ 1 ∷ 1 ∷ 1 ∷ []

abbrev over : Crew ℕ
over = play rounds stopping

both_exited : (k : ℕ) → k < over.sched.threads_count → over.workers k ≡ exited
unfolding play start stop place qc.Base.ℕ_discrete qc.Coroutine.resume qc.Coroutine.construct
both_exited zero h = refl
both_exited (suc zero) h = refl
both_exited (suc (suc k)) h = absurd (omega arith)

over-Tally : Tally over
over-Tally = play-Tally rounds stopping stopping-Tally

drained_example :
    (size over.sched global ≡ 0)
    × (weigh (λ f. f) over-Tally.0
        ≡ weigh (λ f. f) over-Tally.1
          + load (λ f. f) (callbacks (λ f. f) over.sched) over.in_flight)
drained_example = drained (λ f. f) over-Tally.2 over-Tally.3 both_exited global tt

stopping-Reach : Reach stopping
unfolding start
stopping-Reach = later (submit-Reach 7 opening refl refl opening-Reach) stops

one_step : Winding stopping (play (0 ∷ []) stopping) 1 0
unfolding play start stop place
one_step = wind rest 0 returns (omega arith) (λ q. cc) refl

Winding-bound_example : 1 ≤ (2 + 9) * (queued stopping.sched + 0) + 2 * (2 * 2 + 10)
unfolding play start stop place
Winding-bound_example = Winding-bound stopping-Reach refl one_step

-- `stop` comes between the test of a call of `execute` and its enqueue.
abbrev missed : Crew ℕ
missed = play rounds (record admitted_one { sched = (stop admitted_one.sched).0 })

missed-Reach : Reach missed
missed-Reach = play-Reach rounds _ (later admitted_one-Reach stops)

-- Then the task is queued; no worker runs.
abbrev missed_and_queued : Crew ℕ
missed_and_queued = record missed {
  sched = place (call_task 7 no_thread) missed.sched;
  in_flight = [];
}

missed_and_queued-Reach : Reach missed_and_queued
unfolding play start stop place qc.Base.ℕ_discrete
missed_and_queued-Reach = later missed-Reach (deliver [] (call_task 7 no_thread) [] refl)

-- The first of three threads has ended when `stop` is called.
start_stop_example :
    (t : Life) × ((start_threads 3 (λ _. 0) new_life).1 ≡ false)
    × (stop_threads
          (λ _. 0)
          (record (start_threads 3 (λ _. 0) new_life).0 {
            threads = end_threads (λ i. i == 0) 0 (start_threads 3 (λ _. 0) new_life).0.threads;
          })
        ≡ some (t, false))
    × (t.threads ≡ [])
    × (length t.gone ≡ 3)
    × JoinedOnce t.gone
    × (may_destroy t ≡ true)
start_stop_example = start_stop (λ i. i == 0) (λ _. 0) (λ _. 0) (λ i. refl) (λ i. refl) 3

-- The second of three calls of pthread_create fails.
abbrev second_fails : ℕ → ℕ
second_fails i = if i == 1 then 11 else 0

failed_start_example :
    ((start_threads 3 second_fails new_life).1 ≡ true)
    × (may_destroy (start_threads 3 second_fails new_life).0 ≡ false)
    × (stop_threads
          (λ _. 0)
          (record (start_threads 3 second_fails new_life).0 {
            threads = end_threads (λ _. false) 0 (start_threads 3 second_fails new_life).0.threads;
          })
        ≡ none)
failed_start_example =
    failed_start (λ _. false) second_fails (λ _. 0) (λ i. refl) 3 1 (omega arith)
      (λ j lj. ground arith) refl
