-- ===== src/Resp/Reader.antt =====
-- The `Reader` of internal/resp/resp.go. Its input is the list of the bytes that are still to come,
-- after which the stream ends.
mod Line
pub mod Termination
pub mod RoundTrip
mod Runs
use postkeys.Base.{ℕ, zero, suc, ◌+◌, ◌*◌, ◌^◌, ◌≡◌, Bool, true, false, ◌&&◌, Option, none, some}
use postkeys.Base.{
  List, [], ◌∷◌, ◌++◌, map, ltb, leb, ◌==◌, compare_numbers, length, if◌then◌else◌, take,
}
use postkeys.Base.Int.{ℤ, pos, negsuc, eq_ℤ, ltb_ℤ}
use postkeys.Base.Bytes.{Bytes, codes, format_nat, format_int, parse_int, has_prefix}
use postkeys.Resp.{Value, simple_string, error, integer, bulk_string, null_bulk, array, null_array}
use postkeys.Resp.{map_value, push, other, Values, nil, cons, count, cr, lf}
use postkeys.Resp.{max_bulk_len, max_array_len}

pub data ReadError : Type 0 where
  eof unexpected_eof line_ending bad_number : ReadError
  unknown_type : ℕ → ReadError
  bad_bulk_length bulk_too_long bad_array_length array_too_long : ℤ → ReadError

-- Go's (value, error) pair. `stuck` is no outcome of the program: the fuel of `read` ran out.
pub data Result {ℓ} (A : Type ℓ) : Type ℓ where
  ok : A → Result A
  err : ReadError → Result A
  stuck : Result A

infixl 5 ◌>>=◌
abbrev pub ◌>>=◌ {ℓ κ} : {A : Type ℓ} {B : Type κ} → Result A → (A → Result B) → Result B
ok a >>= f = f a
err e >>= f = err e
stuck >>= f = stuck

-- `ReadString('\n')`: the bytes before the first line feed, and those behind it.
pub read_string : Bytes → Option (Bytes × Bytes)
read_string [] = none
read_string (c ∷ cs) =
    let rest = read_string cs in
    if c == lf
    then some ([], cs)
    else elim rest [ none ↦ none | some (line, more) ↦ some (c ∷ line, more) ]

-- The line without its last byte, which must be a carriage return.
pub strip_cr : Bytes → Option Bytes
strip_cr [] = none
strip_cr (c ∷ []) = if c == cr then some [] else none
strip_cr (c ∷ (d ∷ cs)) = elim (strip_cr (d ∷ cs)) [ none ↦ none | some line ↦ some (c ∷ line) ]

pub read_line : Bytes → Result (Bytes × Bytes)
read_line input = elim (read_string input) [
  | none ↦ err eof
  | some (line, rest) ↦ elim (strip_cr line) [
    | none ↦ err line_ending
    | some text ↦ ok (text, rest)
  ]
]

-- A line that holds a number, for `strconv.ParseInt` and `strconv.Atoi`.
pub read_number : Bytes → Result (ℤ × Bytes)
read_number input = do
  (line, rest) ← read_line input
  elim (parse_int line) [ none ↦ err bad_number | some n ↦ ok (n, rest) ]

pub read_simple_string : Bytes → Result (Value × Bytes)
read_simple_string input = do (line, rest) ← read_line input; ok (simple_string line, rest)

pub read_error : Bytes → Result (Value × Bytes)
read_error input = do (line, rest) ← read_line input; ok (error line, rest)

pub read_integer : Bytes → Result (Value × Bytes)
read_integer input = do (n, rest) ← read_number input; ok (integer n, rest)

-- The next `n` bytes of a stream that has begun to answer a read.
pub fill : ℕ → Bytes → Result (Bytes × Bytes)
fill zero input = ok ([], input)
fill (suc n) [] = err unexpected_eof
fill (suc n) (c ∷ cs) = do (buf, rest) ← fill n cs; ok (c ∷ buf, rest)

-- `io.ReadFull` into a buffer of `n` bytes, `n` not 0: an end of the stream before the first byte
-- is told from one behind it.
pub read_full : ℕ → Bytes → Result (Bytes × Bytes)
read_full n [] = err eof
read_full n (c ∷ cs) = fill n (c ∷ cs)

-- The two bytes behind the text are read and not looked at.
pub read_bulk_body : ℤ → Bytes → Result (Value × Bytes)
read_bulk_body (negsuc zero) input = ok (null_bulk, input)
read_bulk_body (negsuc (suc n)) input = err (bad_bulk_length (negsuc (suc n)))
read_bulk_body (pos n) input =
    if ltb max_bulk_len n
    then err (bulk_too_long (pos n))
    else (do (buf, rest) ← read_full (n + 2) input; ok (bulk_string (take n buf), rest))

pub read_bulk_string : Bytes → Result (Value × Bytes)
read_bulk_string input = do (n, rest) ← read_number input; read_bulk_body n rest

-- The loop of `readArray`, which calls `read` for each element.
pub read_elements : (Bytes → Result (Value × Bytes)) → ℕ → Bytes → Result (Values × Bytes)
read_elements read zero input = ok (nil, input)
read_elements read (suc n) input = do
  (v, rest) ← read input
  (vs, rest') ← read_elements read n rest
  ok (cons v vs, rest')

pub read_array_body : (Bytes → Result (Value × Bytes)) → ℤ → Bytes → Result (Value × Bytes)
read_array_body read (negsuc zero) input = ok (null_array, input)
read_array_body read (negsuc (suc n)) input = err (bad_array_length (negsuc (suc n)))
read_array_body read (pos n) input =
    if ltb max_array_len n
    then err (array_too_long (pos n))
    else (do (vs, rest) ← read_elements read n input; ok (array vs, rest))

pub read_array : (Bytes → Result (Value × Bytes)) → Bytes → Result (Value × Bytes)
read_array read input = do (n, rest) ← read_number input; read_array_body read n rest

-- `Read`; the fuel bounds how deep arrays nest.
pub read_fuel : ℕ → Bytes → Result (Value × Bytes)
read_fuel zero input = stuck
read_fuel (suc f) [] = err eof
read_fuel (suc f) (c ∷ cs) =
    let elements = read_array (read_fuel f) cs in
    if c == b'+'
    then read_simple_string cs
    else if c == b'-'
    then read_error cs
    else if c == b':'
    then read_integer cs
    else if c == b'$'
    then read_bulk_string cs
    else if c == b'*'
    then elements
    else err (unknown_type c)

-- Each array takes a byte at least, so one unit of fuel for each byte and one more is enough.
pub read : Bytes → Result (Value × Bytes)
read input = read_fuel (suc (length input)) input
