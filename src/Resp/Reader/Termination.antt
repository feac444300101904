-- ===== src/Resp/Reader/Termination.antt =====
-- `Read` ends: on every input it returns a value or an error, and a value takes a byte at least.
use postkeys.Base.{ℕ, zero, suc, ◌+◌, ◌-◌, ◌≤◌, ◌<◌, ◌≡◌, refl, ◌⊎◌, inl, inr, [], ◌∷◌, arith}
use postkeys.Base.{length}
use postkeys.Base.Int.{ℤ, pos, negsuc}
use postkeys.Base.Bytes.{Bytes}
use postkeys.Resp.{Value}
use postkeys.Resp.Reader.{Result, ok, err, stuck, ReadError, eof}
use postkeys.Resp.Reader.{read_number, read_simple_string, read_error}
use postkeys.Resp.Reader.{read_integer, read_bulk_body, read_bulk_string, read_elements}
use postkeys.Resp.Reader.{read_array_body, read_array, read_fuel, read}
use postkeys.Resp.Reader.Line.{Leaves, Leaves-bind, Leaves-le, read_line-Leaves}
use postkeys.Resp.Reader.Line.{read_number-Leaves, read_full-Leaves}

read_bulk_body-Leaves : (n : ℤ) (input : Bytes) → Leaves (length input) (read_bulk_body n input)
unfolding read_bulk_body
read_bulk_body-Leaves (negsuc zero) input = omega arith
read_bulk_body-Leaves (negsuc (suc n)) input = tt
read_bulk_body-Leaves (pos n) input = ground (arith, read_full-Leaves (n + 2) input)

read_simple_string-Leaves : (input : Bytes) → Leaves (length input) (read_simple_string input)
unfolding read_simple_string
read_simple_string-Leaves input = ground (arith, read_line-Leaves input)

read_error-Leaves : (input : Bytes) → Leaves (length input) (read_error input)
unfolding read_error
read_error-Leaves input = ground (arith, read_line-Leaves input)

read_integer-Leaves : (input : Bytes) → Leaves (length input) (read_integer input)
unfolding read_integer
read_integer-Leaves input = ground (arith, read_number-Leaves input)

read_bulk_string-Leaves : (input : Bytes) → Leaves (length input) (read_bulk_string input)
unfolding read_bulk_string
read_bulk_string-Leaves input =
    Leaves-bind (length input - 1) (length input) (read_number input) _ (read_number-Leaves input)
      λ n rest h.
        Leaves-le (length rest) (length input) (read_bulk_body n rest) (omega arith)
          (read_bulk_body-Leaves n rest)

-- `reader` reads any input of at most `b` bytes.
module _ (reader : Bytes → Result (Value × Bytes)) (b : ℕ)
    (reads : (input : Bytes) → length input ≤ b → Leaves (length input) (reader input)) where
  read_elements-Leaves :
      (n : ℕ) (input : Bytes)
      → length input ≤ b
      → Leaves (length input) (read_elements reader n input)
  unfolding read_elements
  read_elements-Leaves zero input h = omega arith
  read_elements-Leaves (suc n) input h =
      Leaves-bind (length input) (length input) (reader input) _ (reads input h) λ v rest k.
        Leaves-bind (length rest) (length input) (read_elements reader n rest) _
          (read_elements-Leaves n rest (omega arith)) λ vs rest' k'. omega arith

  read_array_body-Leaves :
      (n : ℤ) (input : Bytes)
      → length input ≤ b
      → Leaves (length input) (read_array_body reader n input)
  unfolding read_array_body
  read_array_body-Leaves (negsuc zero) input h = omega arith
  read_array_body-Leaves (negsuc (suc n)) input h = tt
  read_array_body-Leaves (pos n) input h = ground (arith, read_elements-Leaves n input)

  read_array-Leaves :
      (input : Bytes) → length input ≤ b → Leaves (length input) (read_array reader input)
  unfolding read_array
  read_array-Leaves input h =
      Leaves-bind (length input - 1) (length input) (read_number input) _ (read_number-Leaves input)
        λ n rest k.
          Leaves-le (length rest) (length input) (read_array_body reader n rest) (omega arith)
            (read_array_body-Leaves n rest (omega arith))

read_fuel-Leaves :
    (f : ℕ) (input : Bytes) → length input < f → Leaves (length input - 1) (read_fuel f input)
unfolding read_fuel
read_fuel-Leaves zero input h = absurd (omega arith)
read_fuel-Leaves (suc f) [] h = tt
read_fuel-Leaves (suc f) (c ∷ cs) h =
    let reads : (input : Bytes)
        → length input ≤ length cs
        → Leaves (length input) (read_fuel f input) =
      λ input k.
        Leaves-le (length input - 1) (length input) (read_fuel f input) (omega arith)
          (read_fuel-Leaves f input (omega arith)) in
    ground (
      arith,
      read_simple_string-Leaves cs,
      read_error-Leaves cs,
      read_integer-Leaves cs,
      read_bulk_string-Leaves cs,
      read_array-Leaves (read_fuel f) (length cs) reads cs,
    )

Leaves-cases {ℓ} :
    {A : Type ℓ} (n : ℕ) (r : Result (A × Bytes))
    → Leaves n r
    → ((e : ReadError) × (r ≡ err e))
      ⊎ ((a : A) × (rest : Bytes) × (r ≡ ok (a, rest)) × (length rest < suc n))
Leaves-cases n (ok (a, rest)) h = inr (a, rest, refl, omega arith)
Leaves-cases n (err e) h = inl (e, refl)
Leaves-cases n stuck h = absurd h

-- On every input `read` returns an error, or a value that took one byte of the input at least: the
-- fuel never runs out.
pub read_total :
    (input : Bytes)
    → ((e : ReadError) × (read input ≡ err e))
      ⊎ ((v : Value) × (rest : Bytes) × (read input ≡ ok (v, rest)) × (length rest < length input))
unfolding read read_fuel
read_total [] = inl (eof, refl)
read_total (c ∷ cs) = Leaves-cases {A = Value} (length cs) (read (c ∷ cs)) (
    Leaves-le (length (c ∷ cs) - 1) (length cs) (read (c ∷ cs)) (omega arith)
      (read_fuel-Leaves (suc (suc (length cs))) (c ∷ cs) (omega arith)))
