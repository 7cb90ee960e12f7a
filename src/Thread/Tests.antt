-- ===== src/Thread/Tests.antt =====
-- The theorems about threads at concrete values.
use qc.Base.{◌≡◌, refl, true, false, [], ◌∷◌}
use qc.Thread.{State, Call, Thread, construct, join, destroy, finish}
use qc.Thread.Release.{releases, after, Orderly, made, joins, ends, destroy-releases}

abbrev started : Thread
started = record {
  state = State.running;
  calls = (Call.pthread_create, 0) ∷ [];
  ended = false;
  freed = false;
}

abbrev ended : Thread
ended = record started { state = State.terminated; ended = true }

abbrev detached : Thread
detached = record started {
  state = State.detached;
  calls = (Call.pthread_create, 0) ∷ (Call.pthread_detach, 0) ∷ [];
}

started-Orderly : Orderly started
unfolding construct
started-Orderly = made refl

ended-Orderly : Orderly ended
unfolding finish
ended-Orderly = ends started-Orderly refl (λ e. cc) refl

destroy-releases_example : releases (destroy 0 (after (join 3 ended))).calls ≡ 1
destroy-releases_example = destroy-releases (joins 3 ended-Orderly (λ e. refl))
