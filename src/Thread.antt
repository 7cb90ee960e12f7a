-- ===== src/Thread.antt =====
-- src/thread/thread.cpp and src/thread/conditionvariable.cpp. Of the pthread library the model has the
-- calls that the code makes, each with the result that it got, 0 for success.
pub mod Release
pub mod Deadline
pub mod Handshake
pub mod Level
pub mod Ready
pub mod Returns
mod Tests
mod BirthTests
use qc.Base.{
  ℕ, ◌+◌, ◌/◌, ◌%◌, ◌-◌, Bool, true, false, Option, none, some, List, [], ◌∷◌, ◌++◌, ◌==◌, leb,
  if◌then◌else◌,
}

pub data State : Type 0 where
  init running joined detached terminated : State

pub data Call : Type 0 where
  pthread_create pthread_join pthread_detach : Call

-- The state of a Thread, the calls so far, whether `run` has made its last assignment, and whether the
-- object is destroyed.
pub record Thread : Type 0 where
  pub state : State
  pub calls : List (Call × ℕ)
  pub ended : Bool
  pub freed : Bool

-- An operation returns, or throws a `std::logic_error`.
pub data Result : Type 0 where
  returned threw : (t : Thread) → Result

abbrev pub called : Call → ℕ → Thread → Thread
called c rt t = record t { calls = t.calls ++ (c, rt) ∷ [] }

-- After a call: throw, or go to the next state.
abbrev pub checked : ℕ → State → Thread → Result
checked rt next t = if rt == 0 then returned (record t { state = next }) else threw t

-- The constructor; `m_state` is RUNNING before the thread is made.
unfoldable pub construct : ℕ → Result
construct rt = checked rt State.running (record {
  state = State.running;
  calls = (Call.pthread_create, rt) ∷ [];
  ended = false;
  freed = false;
})

unfoldable pub join : ℕ → Thread → Result
join rt t = elim t.state [
  | State.joined ↦ returned t
  | State.detached ↦ threw t
  | _ ↦ checked rt State.joined (called Call.pthread_join rt t)
]

unfoldable pub detach : ℕ → Thread → Result
detach rt t = elim t.state [
  | State.detached ↦ returned t
  | State.joined ↦ threw t
  | State.terminated ↦ threw t
  | _ ↦ checked rt State.detached (called Call.pthread_detach rt t)
]

-- The destructor, which does not look at the result.
unfoldable pub destroy : ℕ → Thread → Thread
destroy rt t =
    let t' = record t { freed = true } in
    elim t.state [
      | State.running ↦ called Call.pthread_detach rt t'
      | State.terminated ↦ called Call.pthread_join rt t'
      | _ ↦ t'
    ]

-- The last assignment of `run`, after a callback that returned; `none` writes to a destroyed object.
unfoldable pub finish : Thread → Option Thread
finish t = if t.freed then none else some (record t { state = State.terminated; ended = true })

abbrev pub billion : ℕ
billion = 1000000000

-- `wait_for`: the seconds and nanoseconds of the time that it gives to pthread_cond_timedwait.
unfoldable pub abstime : ℕ → ℕ × ℕ
abstime nanoseconds =
    let tv_sec = nanoseconds / billion in
    let tv_nsec = nanoseconds % billion in
    if leb billion tv_nsec then (tv_sec + 1, tv_nsec - billion) else (tv_sec, tv_nsec)
