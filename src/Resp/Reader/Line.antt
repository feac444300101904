-- ===== src/Resp/Reader/Line.antt =====
-- Lines and counted bytes: what the reader's parts take, and what they give back.
use postkeys.Base.{ℕ, zero, suc, ◌-◌, ◌≤◌, ◌<◌, ◌≡◌, ◌≢◌, refl, Option, none, some}
use postkeys.Base.{[], ◌∷◌, ◌++◌, arith, length, All}
use postkeys.Base.Int.{ℤ, IsI64}
use postkeys.Base.Bytes.{Bytes, format_int, parse_int-format_int}
use postkeys.Resp.{cr, lf}
use postkeys.Resp.Reader.{Result, ok, err, stuck, ◌>>=◌}
use postkeys.Resp.Reader.{read_string, strip_cr, read_line, read_number, fill, read_full}

-- A line's text may hold any byte but a line feed.
abbrev pub IsText : Bytes → Type 0
IsText = All (λ c. c ≢ lf)

read_string-append :
    (s rest : Bytes) → IsText s → read_string (s ++ cr ∷ (lf ∷ rest)) ≡ some (s ++ cr ∷ [], rest)
unfolding read_string
read_string-append [] rest h = refl
read_string-append (c ∷ cs) rest h = ground (arith, read_string-append cs rest)

strip_cr-append : (s : Bytes) → strip_cr (s ++ cr ∷ []) ≡ some s
unfolding strip_cr
strip_cr-append [] = refl
strip_cr-append (c ∷ []) = refl
strip_cr-append (c ∷ (d ∷ cs)) = rw (strip_cr-append (d ∷ cs))

pub read_line-append :
    (s rest : Bytes) → IsText s → read_line (s ++ cr ∷ (lf ∷ rest)) ≡ ok (s, rest)
unfolding read_line
read_line-append s rest h = ground (arith, read_string-append s rest, strip_cr-append s)

pub read_number-append :
    (n : ℤ) (rest : Bytes)
    → IsI64 n
    → IsText (format_int n)
    → read_number (format_int n ++ cr ∷ (lf ∷ rest)) ≡ ok (n, rest)
unfolding read_number
read_number-append n rest h t =
    ground (arith, read_line-append (format_int n) rest, parse_int-format_int n)

pub fill-append : (s rest : Bytes) → fill (length s) (s ++ rest) ≡ ok (s, rest)
unfolding fill
fill-append [] rest = refl
fill-append (c ∷ cs) rest = rw (fill-append cs rest)

-- The reader's outcome is no `stuck`, and what a success leaves has at most `n` bytes.
abbrev pub Leaves {ℓ} : {A : Type ℓ} → ℕ → Result (A × Bytes) → Type 0
Leaves n (ok (a, rest)) = length rest ≤ n
Leaves n (err e) = Unit
Leaves n stuck = ⊥

pub Leaves-bind {ℓ κ} :
    {A : Type ℓ} {B : Type κ} (n m : ℕ) (r : Result (A × Bytes))
    (f : A × Bytes → Result (B × Bytes))
    → Leaves n r
    → ((a : A) (rest : Bytes) → length rest ≤ n → Leaves m (f (a, rest)))
    → Leaves m (r >>= f)
Leaves-bind n m (ok (a, rest)) f h k = k a rest h
Leaves-bind n m (err e) f h k = tt
Leaves-bind n m stuck f h k = absurd h

pub Leaves-le {ℓ} :
    {A : Type ℓ} (n m : ℕ) (r : Result (A × Bytes)) → n ≤ m → Leaves n r → Leaves m r
Leaves-le n m (ok (a, rest)) le h = omega arith
Leaves-le n m (err e) le h = tt
Leaves-le n m stuck le h = h

abbrev LeavesLess : ℕ → Option (Bytes × Bytes) → Type 0
LeavesLess n none = Unit
LeavesLess n (some (line, rest)) = length rest < n

read_string-LeavesLess : (input : Bytes) → LeavesLess (length input) (read_string input)
unfolding read_string
read_string-LeavesLess [] = tt
read_string-LeavesLess (c ∷ cs) = ground (arith, read_string-LeavesLess cs)

pub read_line-Leaves : (input : Bytes) → Leaves (length input - 1) (read_line input)
unfolding read_line
read_line-Leaves input = ground (arith, read_string-LeavesLess input)

pub read_number-Leaves : (input : Bytes) → Leaves (length input - 1) (read_number input)
unfolding read_number
read_number-Leaves input =
    Leaves-bind (length input - 1) (length input - 1) (read_line input) _ (read_line-Leaves input)
      λ line rest h. ground arith

pub fill-Leaves : (n : ℕ) (input : Bytes) → Leaves (length input) (fill n input)
unfolding fill
fill-Leaves zero input = omega arith
fill-Leaves (suc n) [] = tt
fill-Leaves (suc n) (c ∷ cs) =
    Leaves-bind (length cs) (length (c ∷ cs)) (fill n cs) _ (fill-Leaves n cs)
      λ buf rest h. omega arith

pub read_full-Leaves : (n : ℕ) (input : Bytes) → Leaves (length input) (read_full n input)
unfolding read_full
read_full-Leaves n [] = tt
read_full-Leaves n (c ∷ cs) = fill-Leaves n (c ∷ cs)
