-- ===== src/Utils.antt =====
-- src/utils.cpp: the backtrace of a failed assertion, as a list of lines and as one text.
pub mod Trace
mod Tests
use qc.Base.{
  ℕ, zero, suc, ◌+◌, ◌-◌, ◌≤◌, ◌≡◌, Bool, true, false, Option, none, some, List, [], ◌∷◌, ◌++◌,
  if◌then◌else◌, length, get_elem?, ◌>>=◌,
}

-- The calls of the C library: whether `malloc` has room for so many pointers, the addresses that
-- `backtrace` finds, at most so many, and their symbols, where `none` is a null pointer.
pub record Libc : Type 1 where
  pub Address : Type 0
  pub malloc : ℕ → Bool
  pub backtrace : ℕ → List Address
  pub backtrace_symbols : List Address → Option (List (List ℕ))
  pub backtrace_bound : (size : ℕ) → length (backtrace size) ≤ size
  pub symbols_length :
      (callstack : List Address) (strs : List (List ℕ))
      → backtrace_symbols callstack ≡ some strs
      → length strs ≡ length callstack

-- The loop from `i` on, with `n` rounds left. `none` is a read through a null pointer, or past the end.
unfoldable pub push_symbols :
    ℕ → ℕ → Option (List (List ℕ)) → List (List ℕ) → Option (List (List ℕ))
push_symbols zero i strs bt = some bt
push_symbols (suc n) i strs bt = do
  all ← strs
  str ← get_elem? all i
  push_symbols n (suc i) strs (bt ++ str ∷ [])

unfoldable pub append_lines : List ℕ → List (List ℕ) → List ℕ
append_lines prefix [] = []
append_lines prefix (i ∷ rest) = prefix ++ i ++ 10 ∷ [] ++ append_lines prefix rest

module _ (c : Libc) where
  open c use {Address, malloc, backtrace, backtrace_symbols}

  -- `Backtrace`; a null result of `backtrace_symbols` is logged and then used.
  unfoldable pub trace : List (List ℕ) → ℕ → ℕ → Option (List (List ℕ))
  unfolding push_symbols
  trace bt size skip =
      if malloc size
      then (let callstack = backtrace size in
          let s = length callstack in push_symbols (s - skip) skip (backtrace_symbols callstack) bt)
      else some bt

  unfoldable pub trace_to_string : ℕ → ℕ → List ℕ → Option (List ℕ)
  unfolding trace append_lines
  trace_to_string size skip prefix = do bt ← trace [] size skip; some (append_lines prefix bt)
