-- ===== src/Log/Layout/RoundTrip.antt =====
-- src/log/layout.cpp: patterns printed from texts and letters, and how Layout::init reads them.
use qc.Base.{
  ℕ, zero, suc, ◌+◌, ◌-◌, ◌≤◌, ◌≡◌, refl, ap, ◌∙◌, false, Bool, List, [], ◌∷◌, ◌++◌, ◌==◌, length,
  length-append, none, some, arith,
}
use qc.Log.Layout.{
  FormatItem, text, Ending, finished, para_error, out_of_bounds, parameter, unclosed, past_end,
  read_para, Status, item_then, make_item, init_loop, init,
}
use qc.Log.Layout.Reading.{Free, find_here, find-none}

-- A text, then a letter after a percent sign, with a parameter in braces unless it is empty.
pub record Piece : Type 0 where
  pub before : List ℕ
  pub letter : ℕ
  pub para : List ℕ

abbrev pub braces : List ℕ → List ℕ → List ℕ
braces [] k = k
braces (x ∷ q) k = b'{' ∷ x ∷ (q ++ b'}' ∷ k)

-- The pattern of the pieces, and then `k`.
unfoldable pub print : List Piece → List ℕ → List ℕ
print [] k = k
print (p ∷ ps) k = p.before ++ b'%' ∷ p.letter ∷ braces p.para (print ps k)

-- The items of the pieces, put before what comes after them.
unfoldable pub items : List Piece → List FormatItem × Ending → List FormatItem × Ending
items [] r = r
items (p ∷ ps) r = item_then (text p.before) (item_then (make_item p.letter p.para) (items ps r))

abbrev opens : List ℕ → Bool
opens [] = false
opens (b ∷ bs) = b == b'{'

abbrev ParaOk : List ℕ → List ℕ → Type 0
ParaOk [] next = opens next ≡ false
ParaOk (x ∷ q) next = Free b'}' q

-- No percent sign in a text, no closing brace in a parameter but as its first character, and no
-- opening brace after a letter without a parameter.
unfoldable pub Printable : List Piece → List ℕ → Type 0
unfolding Free
Printable [] k = Unit
Printable (p ∷ ps) k = Free b'%' p.before × ParaOk p.para (print ps k) × Printable ps k

fuel : List Piece → ℕ → ℕ
fuel [] n = n
fuel (p ∷ ps) n = suc (suc (fuel ps n))

read_para-braces : (para k : List ℕ) → ParaOk para k → read_para (braces para k) ≡ parameter para k
unfolding read_para
read_para-braces [] [] h = refl
read_para-braces [] (b ∷ bs) h = rw h refl
read_para-braces (x ∷ q) k h =
    ap (λ r. elim r.1 [ some rest ↦ parameter (x ∷ r.0) rest | none ↦ unclosed ])
      (find_here b'}' q k h)

scan_text :
    (n : ℕ) (t rest : List ℕ)
    → Free b'%' t
    → init_loop (suc n) Status.scan (t ++ b'%' ∷ rest)
      ≡ item_then (text t) (init_loop n Status.create rest)
unfolding init_loop
scan_text n [] rest h = refl
scan_text n (x ∷ t) rest h =
    ap
      (λ r. elim r.1 [
        | some rest ↦ item_then (text r.0) (init_loop n Status.create rest)
        | none ↦ (text r.0 ∷ [], finished)
      ])
      (find_here b'%' (x ∷ t) rest h)

create_para :
    (n c : ℕ) (para k : List ℕ)
    → ParaOk para k
    → init_loop (suc n) Status.create (c ∷ braces para k)
      ≡ item_then (make_item c para) (init_loop n Status.scan k)
unfolding init_loop
create_para n c para k h =
    ap
      (λ r. elim r [
        | parameter str rest ↦ item_then (make_item c str) (init_loop n Status.scan rest)
        | unclosed ↦ ([], para_error)
        | past_end ↦ ([], out_of_bounds)
      ])
      (read_para-braces para k h)

loop-print :
    (ps : List Piece) (k : List ℕ) (n : ℕ)
    → Printable ps k
    → init_loop (fuel ps n) Status.scan (print ps k) ≡ items ps (init_loop n Status.scan k)
unfolding Printable fuel items print
loop-print [] k n h = refl
loop-print (p ∷ ps) k n h =
    scan_text (suc (fuel ps n)) p.before (p.letter ∷ braces p.para (print ps k)) h.0
    ∙ ap (item_then (text p.before)) (
        create_para (fuel ps n) p.letter p.para (print ps k) h.1
        ∙ ap (item_then (make_item p.letter p.para)) (loop-print ps k n h.2))

length-braces : (para k : List ℕ) → length k ≤ length (braces para k)
length-braces [] k = omega arith
length-braces (x ∷ q) k = omega (arith, length-append q (b'}' ∷ k))

length-print :
    (ps : List Piece) (k : List ℕ) (n : ℕ) → fuel ps n + length k ≤ length (print ps k) + n
unfolding print fuel
length-print [] k n = omega arith
length-print (p ∷ ps) k n = omega (
  arith,
  length-print ps k n,
  length-braces p.para (print ps k),
  length-append p.before (b'%' ∷ p.letter ∷ braces p.para (print ps k)),
)

fuel_suc : (ps : List Piece) (n m : ℕ) → fuel ps (n + m) ≡ fuel ps n + m
unfolding fuel
fuel_suc [] n m = refl
fuel_suc (p ∷ ps) n m = omega (arith, fuel_suc ps n m)

-- The reader's fuel is that of the pieces and at least the length of what comes after.
init-print :
    (ps : List Piece) (k : List ℕ)
    → Printable ps k
    → (m : ℕ) × (init (print ps k) ≡ items ps (init_loop (length k + m) Status.scan k))
unfolding init
init-print ps k h =
    let m : ℕ = length (print ps k) - fuel ps (length k) in
    let e : length (print ps k) ≡ fuel ps (length k + m) =
      omega (arith, length-print ps k (length k), fuel_suc ps (length k) m) in
    (m, ap (λ n. init_loop n Status.scan (print ps k)) e ∙ loop-print ps k (length k + m) h)

abbrev pub last_items : List ℕ → List FormatItem
last_items [] = []
last_items (x ∷ xs) = text (x ∷ xs) ∷ []

loop_last :
    (n : ℕ) (k : List ℕ)
    → length k ≤ n
    → Free b'%' k
    → init_loop n Status.scan k ≡ (last_items k, finished)
unfolding init_loop
loop_last n [] h free = refl
loop_last zero (x ∷ xs) h free = absurd (omega arith)
loop_last (suc n) (x ∷ xs) h free =
    ap
      (λ r. elim r.1 [
        | some rest ↦ item_then (text r.0) (init_loop n Status.create rest)
        | none ↦ (text r.0 ∷ [], finished)
      ])
      (find-none b'%' (x ∷ xs) free)

-- A pattern printed from texts and letters is read back as the text and the item of each, in order,
-- and the last text if it is not empty, where no text has a percent sign, no parameter has a closing
-- brace but as its first character, and no opening brace follows a letter without a parameter.
pub read-print :
    (ps : List Piece) (last : List ℕ)
    → Printable ps last
    → Free b'%' last
    → init (print ps last) ≡ items ps (last_items last, finished)
read-print ps last h free =
    let (m, e) = init-print ps last h in
    e ∙ ap (items ps) (loop_last (length last + m) last (omega arith) free)

tail-open :
    (n m c : ℕ) (t r : List ℕ)
    → n ≡ suc (suc m)
    → Free b'%' t
    → init_loop n Status.scan (t ++ b'%' ∷ c ∷ b'{' ∷ r)
      ≡ item_then (text t) (elim (read_para (b'{' ∷ r)) [
        | parameter str rest ↦ item_then (make_item c str) (init_loop m Status.scan rest)
        | unclosed ↦ ([], para_error)
        | past_end ↦ ([], out_of_bounds)
      ])
unfolding init_loop
tail-open n m c t r h free =
    ap (λ n. init_loop n Status.scan (t ++ b'%' ∷ c ∷ b'{' ∷ r)) h
    ∙ scan_text (suc m) t (c ∷ b'{' ∷ r) free

-- A pattern that ends in an opening brace after a letter is read past its end; one whose parameter
-- does not close stops there. Either way the items so far are kept, and that of the letter is lost.
pub read-print_open :
    (ps : List Piece) (t : List ℕ) (c x : ℕ) (q : List ℕ)
    → Printable ps (t ++ b'%' ∷ c ∷ b'{' ∷ [])
    → Printable ps (t ++ b'%' ∷ c ∷ b'{' ∷ x ∷ q)
    → Free b'%' t
    → Free b'}' q
    → (init (print ps (t ++ b'%' ∷ c ∷ b'{' ∷ [])) ≡ items ps (text t ∷ [], out_of_bounds))
      × (init (print ps (t ++ b'%' ∷ c ∷ b'{' ∷ x ∷ q)) ≡ items ps (text t ∷ [], para_error))
unfolding read_para
read-print_open ps t c x q h h' free closed =
    let (m, e) = init-print ps (t ++ b'%' ∷ c ∷ b'{' ∷ []) h in
    let (m', e') = init-print ps (t ++ b'%' ∷ c ∷ b'{' ∷ x ∷ q) h' in
    let n : ℕ = length (t ++ b'%' ∷ c ∷ b'{' ∷ []) + m in
    let n' : ℕ = length (t ++ b'%' ∷ c ∷ b'{' ∷ x ∷ q) + m' in
    (
      e
          ∙ ap (items ps) (
              tail-open n (n - 2) c t [] (omega (arith, length-append t (b'%' ∷ c ∷ b'{' ∷ [])))
                free),
      e'
          ∙ ap (items ps) (
              tail-open n' (n' - 2) c t (x ∷ q)
                (omega (arith, length-append t (b'%' ∷ c ∷ b'{' ∷ x ∷ q))) free
              ∙ ap
                  (λ r. item_then (text t) (elim r [
                    | parameter str rest ↦
                        item_then (make_item c str) (init_loop (n' - 2) Status.scan rest)
                    | unclosed ↦ ([], para_error)
                    | past_end ↦ ([], out_of_bounds)
                  ]))
                  (ap (λ r. elim r.1 [ some rest ↦ parameter (x ∷ r.0) rest | none ↦ unclosed ])
                    (find-none b'}' q closed))),
    )
