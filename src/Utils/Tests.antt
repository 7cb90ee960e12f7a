-- ===== src/Utils/Tests.antt =====
-- The theorem about backtraces at a small one.
use qc.Base.{ℕ, zero, suc, ◌≤◌, ◌≡◌, refl, true, some, List, [], ◌∷◌, length, codes, arith}
use qc.Utils.{Libc, trace}
use qc.Utils.Trace.{trace_lem}

abbrev name_each : List ℕ → List (List ℕ)
name_each [] = []
name_each (x ∷ xs) = (x ∷ []) ∷ name_each xs

abbrev frames : ℕ → List ℕ
frames zero = []
frames (suc n) = n ∷ frames n

-- As many frames as there is room for.
abbrev deep_stack : Libc
deep_stack = record {
  Address = ℕ;
  malloc = λ n. true;
  backtrace = frames;
  backtrace_symbols = λ callstack. some (name_each callstack);
  backtrace_bound = bound;
  symbols_length = named;
}
  where
    bound : (size : ℕ) → length (frames size) ≤ size
    bound zero = omega arith
    bound (suc n) = omega (arith, bound n)

    length-name_each : (xs : List ℕ) → length (name_each xs) ≡ length xs
    length-name_each [] = refl
    length-name_each (x ∷ xs) = omega (arith, length-name_each xs)

    named :
        (callstack : List ℕ) (strs : List (List ℕ))
        → some (name_each callstack) ≡ some strs
        → length strs ≡ length callstack
    named callstack strs e = ground (arith, length-name_each callstack)

trace_lem_example : trace deep_stack (codes "top" ∷ []) 3 2 ≡ some (codes "top" ∷ (0 ∷ []) ∷ [])
trace_lem_example = trace_lem deep_stack (codes "top" ∷ []) 3 2 refl
