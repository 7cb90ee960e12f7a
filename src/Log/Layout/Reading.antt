-- ===== src/Log/Layout/Reading.antt =====
-- src/log/layout.cpp: the loop of Layout::init, a round at a time.
use qc.Base.{
  ℕ, zero, suc, ◌≤◌, ◌<◌, ◌≡◌, ◌≢◌, refl, false, Option, none, some, List, [], ◌∷◌, ◌++◌, ◌==◌, inl,
  inr, Bool-cases, length, arith,
}
use qc.Log.Layout.{
  FormatItem, text, find, Ending, finished, para_error, out_of_bounds, out_of_fuel, Para, parameter,
  unclosed, past_end, read_para, Status, item_then, make_item, init_loop, init,
}

-- A text without a character.
unfoldable pub Free : ℕ → List ℕ → Type 0
Free c [] = Unit
Free c (x ∷ xs) = ((x == c) ≡ false) × Free c xs

pub find_here : (c : ℕ) (xs ys : List ℕ) → Free c xs → find c (xs ++ c ∷ ys) ≡ (xs, some ys)
unfolding find Free
find_here c [] ys free = ground arith
find_here c (x ∷ xs) ys free = rw (free.0, find_here c xs ys free.1) refl

pub find-none : (c : ℕ) (xs : List ℕ) → Free c xs → find c xs ≡ (xs, none)
unfolding find Free
find-none c [] free = refl
find-none c (x ∷ xs) free = rw (free.0, find-none c xs free.1) refl

-- What is left after a search is shorter.
abbrev Shorter : Option (List ℕ) → List ℕ → Type 0
Shorter none xs = Unit
Shorter (some rest) xs = length rest < length xs

Shorter-suc : (o : Option (List ℕ)) (x : ℕ) (xs : List ℕ) → Shorter o xs → Shorter o (x ∷ xs)
Shorter-suc none x xs h = tt
Shorter-suc (some rest) x xs h = omega arith

find-Shorter : (c : ℕ) (xs : List ℕ) → Shorter (find c xs).1 xs
unfolding find
find-Shorter c [] = tt
find-Shorter c (x ∷ xs) = elim (Bool-cases (x == c)) [
  | inl e ↦ rw e (omega arith)
  | inr e ↦ rw e (Shorter-suc (find c xs).1 x xs (find-Shorter c xs))
]

abbrev Left : Para → List ℕ → Type 0
Left (parameter str rest) cs = length rest ≤ length cs
Left unclosed cs = Unit
Left past_end cs = Unit

closed-Left :
    (b x : ℕ) (q before : List ℕ) (after : Option (List ℕ))
    → Shorter after q
    → Left (elim after [ some rest ↦ parameter (x ∷ before) rest | none ↦ unclosed ]) (b ∷ x ∷ q)
closed-Left b x q before none h = tt
closed-Left b x q before (some rest) h = omega arith

read_para-Left : (cs : List ℕ) → Left (read_para cs) cs
unfolding read_para
read_para-Left [] = omega arith
read_para-Left (b ∷ []) = elim (Bool-cases (b == b'{')) [
  | inl e ↦ rw e tt
  | inr e ↦ rw e (omega arith)
]
read_para-Left (b ∷ x ∷ q) = elim (Bool-cases (b == b'{')) [
  | inl e ↦ rw e (closed-Left b x q (find b'}' q).0 (find b'}' q).1 (find-Shorter b'}' q))
  | inr e ↦ rw e (omega arith)
]

-- The end of the loop that is met when the fuel suffices.
abbrev Ends : List FormatItem × Ending → Type 0
Ends r = r.1 ≢ out_of_fuel

scan-Ends :
    (n : ℕ) (cs before : List ℕ) (after : Option (List ℕ))
    → Shorter after cs
    → ((rest : List ℕ) → length rest < length cs → Ends (init_loop n Status.create rest))
    → Ends (elim after [
      | some rest ↦ item_then (text before) (init_loop n Status.create rest)
      | none ↦ (text before ∷ [], finished)
    ])
scan-Ends n cs before none h go = λ e. cc
scan-Ends n cs before (some rest) h go = go rest h

create-Ends :
    (n c : ℕ) (cs : List ℕ) (p : Para)
    → Left p cs
    → ((rest : List ℕ) → length rest ≤ length cs → Ends (init_loop n Status.scan rest))
    → Ends (elim p [
      | parameter str rest ↦ item_then (make_item c str) (init_loop n Status.scan rest)
      | unclosed ↦ ([], para_error)
      | past_end ↦ ([], out_of_bounds)
    ])
create-Ends n c cs (parameter str rest) h go = go rest h
create-Ends n c cs unclosed h go = λ e. cc
create-Ends n c cs past_end h go = λ e. cc

init_loop-Ends : (n : ℕ) (st : Status) (cs : List ℕ) → length cs ≤ n → Ends (init_loop n st cs)
unfolding init_loop
init_loop-Ends n st [] h = λ e. cc
init_loop-Ends zero st (c ∷ cs) h = absurd (omega arith)
init_loop-Ends (suc n) Status.scan (c ∷ cs) h =
    scan-Ends n (c ∷ cs) (find b'%' (c ∷ cs)).0 (find b'%' (c ∷ cs)).1 (find-Shorter b'%' (c ∷ cs))
      (λ rest l. init_loop-Ends n Status.create rest (omega arith))
init_loop-Ends (suc n) Status.create (c ∷ cs) h =
    create-Ends n c cs (read_para cs) (read_para-Left cs)
      (λ rest l. init_loop-Ends n Status.scan rest (omega arith))

-- The reading of every pattern comes to an end: the fuel that the model gives is enough.
pub init_ends : (pattern : List ℕ) → (init pattern).1 ≢ out_of_fuel
unfolding init
init_ends pattern = init_loop-Ends (length pattern) Status.scan pattern (omega arith)
