-- ===== src/Coroutine.antt =====
-- src/coroutine/coroutine.cpp: one coroutine and the thread-local variables around it. What the
-- callback does between two switches of context is an argument, an `Outcome`.
pub mod Lifecycle
mod Tests
use qc.Base.{ℕ, ◌+◌, ◌-◌, ◌%◌, ◌^◌, ◌*◌, Bool, true, false, Option, none, some, ◌==◌, if◌then◌else◌}

pub data Status : Type 0 where
  init rady runn susp dead ecpt : Status

-- `F` is the type of callbacks.
pub record Coroutine (F : Type 0) : Type 0 where
  pub id : ℕ
  pub status : Status
  pub cb : F
  pub stk_size : ℕ

-- t_cur_coro, by id, and coro_count, a uint64_t
pub record Locals : Type 0 where
  pub cur_coro : Option ℕ
  pub coro_count : ℕ

-- What the callback does when it runs next: it calls `yield` on its coroutine, returns, throws a
-- `std::exception`, or throws something else.
pub data Outcome : Type 0 where
  yields returns throws throws_unknown : Outcome

abbrev pub u64 : ℕ → ℕ
u64 n = n % 2 ^ 64

abbrev pub coroutine_stk_size : ℕ
coroutine_stk_size = 128 * 1024

-- A failed assertion aborts: `none`.
infixl 5 ◌>>=◌
abbrev pub ◌>>=◌ : {A B : Type 0} → Option A → (A → Option B) → Option B
none >>= f = none
some a >>= f = f a

abbrev pub is_resumable : Status → Bool
is_resumable Status.rady = true
is_resumable Status.susp = true
is_resumable _ = false

abbrev pub is_finished : Status → Bool
is_finished Status.dead = true
is_finished Status.ecpt = true
is_finished _ = false

abbrev pub is_running : Status → Bool
is_running Status.runn = true
is_running _ = false

module _ {F : Type 0} where
  -- The constructor. `coro_id` is the process-wide counter; the new one is returned too.
  unfoldable pub construct : F → ℕ → ℕ → Locals → Coroutine F × Locals × ℕ
  construct cb stack_size coro_id l = (
    record {
      id = u64 (coro_id + 1);
      status = Status.rady;
      cb = cb;
      stk_size = if stack_size == 0 then coroutine_stk_size else stack_size;
    },
    record l { coro_count = u64 (l.coro_count + 1) },
    u64 (coro_id + 1),
  )

  -- The destructor: what is left is the count.
  unfoldable pub destruct : Coroutine F → Locals → Option Locals
  destruct co l =
      if is_finished co.status
      then some (record l { coro_count = u64 (l.coro_count + 2 ^ 64 - 1) })
      else none

  -- `resume` up to the switch into the coroutine.
  unfoldable pub enter : Coroutine F → Locals → Option (Coroutine F × Locals)
  enter co l =
      if is_resumable co.status
      then some (record co { status = Status.runn }, record l { cur_coro = some co.id })
      else none

  unfoldable pub yield : Coroutine F → Locals → Option (Coroutine F × Locals)
  yield co l =
      if is_running co.status
      then some (record co { status = Status.susp }, record l { cur_coro = none })
      else none

  -- The end of `trampoline`, after the callback and its handlers.
  unfoldable pub finish : Status → Coroutine F → Locals → Option (Coroutine F × Locals)
  finish s co l = some (record co { status = s }, record l { cur_coro = none })

  -- The coroutine from the switch into it up to the switch back to the thread. The handler of an
  -- unknown exception leaves the status as it is.
  unfoldable pub run_callback : Outcome → Coroutine F → Locals → Option (Coroutine F × Locals)
  unfolding yield finish
  run_callback yields co l = yield co l
  run_callback returns co l = finish Status.dead co l
  run_callback throws co l = finish Status.ecpt co l
  run_callback throws_unknown co l = finish co.status co l

  unfoldable pub resume : Outcome → Coroutine F → Locals → Option (Coroutine F × Locals)
  unfolding enter run_callback
  resume o co l = enter co l >>= λ (co', l'). run_callback o co' l'

  unfoldable pub reset : F → Coroutine F → Option (Coroutine F)
  reset cb co =
      if is_running co.status then none else some (record co { cb = cb; status = Status.rady })

-- Utils: the id that a log event carries, 0 outside a coroutine.
unfoldable pub coroutine_id : Locals → ℕ
coroutine_id l = elim l.cur_coro [ none ↦ 0 | some i ↦ i % 2 ^ 32 ]
