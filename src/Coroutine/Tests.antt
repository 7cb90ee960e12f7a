-- ===== src/Coroutine/Tests.antt =====
-- The theorems about coroutines at concrete values.
use qc.Base.{ℕ, ◌≡◌, refl, none, some, [], ◌∷◌}
use qc.Coroutine.{
  Coroutine, Locals, Status, yields, returns, throws_unknown, destruct, resume, reset,
}
use qc.Coroutine.Lifecycle.{resume_lem, drive, yielding, drive-yielding, unknown_exception_stuck}

abbrev quiet : Locals
quiet = record { cur_coro = none; coro_count = 5 }

abbrev at_status : Status → Coroutine ℕ
at_status s = record { id = 3; status = s; cb = 40; stk_size = 4096 }

drive-yielding_example :
    (drive (yielding 2 (returns ∷ [])) (at_status Status.susp) quiet
      ≡ some (at_status Status.dead, quiet))
    × (drive (yielding 2 (returns ∷ yields ∷ [])) (at_status Status.susp) quiet ≡ none)
drive-yielding_example =
    drive-yielding 2 returns yields [] (at_status Status.susp) quiet (λ e. cc) refl

unknown_exception_stuck_example :
    (resume yields (at_status Status.runn) quiet ≡ none)
    × (reset 41 (at_status Status.runn) ≡ none)
    × (destruct (at_status Status.runn) quiet ≡ none)
unknown_exception_stuck_example =
    unknown_exception_stuck (at_status Status.rady) (at_status Status.runn) quiet quiet
      (resume_lem throws_unknown (at_status Status.rady) quiet) yields 41
