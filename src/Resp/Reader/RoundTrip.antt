-- ===== src/Resp/Reader/RoundTrip.antt =====
-- What the writer wrote is read back, whatever stands behind it: a reply cannot be cut short or
-- run into the next one.
use postkeys.Base.{ℕ, zero, suc, ◌+◌, ◌≤◌, ◌<◌, ◌≡◌, refl, ◌^◌}
use postkeys.Base.{[], ◌∷◌, ◌++◌, append_assoc, arith, length, length-append}
use postkeys.Base.{take-append, true}
use postkeys.Base.Int.{ℤ, pos, IsI64}
use postkeys.Base.Bytes.{Bytes, format_int, format_nat, parse_int, format_int-no_break}
use postkeys.Resp.{Value, simple_string, error, integer, bulk_string, null_bulk, array, null_array}
use postkeys.Resp.{map_value, push, other, Values, nil, cons, count, max_bulk_len}
use postkeys.Resp.{max_array_len}
use postkeys.Resp.Writer.{crlf, replace_break, replace_breaks, write_simple_string, write_error}
use postkeys.Resp.Writer.{write_integer, write_bulk_string, write_null, write_null_array}
use postkeys.Resp.Writer.{write_header, write_value, write_values}
use postkeys.Resp.Reader.{ok, read_line, read_number, fill, read_full}
use postkeys.Resp.Reader.{read_simple_string, read_error, read_integer, read_bulk_body}
use postkeys.Resp.Reader.{read_bulk_string, read_elements, read_array_body, read_array, read_fuel}
use postkeys.Resp.Reader.{read, read_string, strip_cr}
use postkeys.Base.Bytes.Decimal.{parse_digits, parse_nat, negative}
use postkeys.Resp.Reader.Line.{IsText, read_line-append, read_number-append, fill-append}

-- The values that the protocol's clients send: numbers are int64s, and lengths are within the limits.
abbrev mutual
  pub IsSendable : Value → Type 0
  IsSendable (simple_string s) = Unit
  IsSendable (error s) = Unit
  IsSendable (integer n) = IsI64 n
  IsSendable (bulk_string s) = length s ≤ max_bulk_len
  IsSendable null_bulk = Unit
  IsSendable (array vs) = (count vs ≤ max_array_len) × AreSendable vs
  IsSendable null_array = Unit
  IsSendable _ = ⊥

  pub AreSendable : Values → Type 0
  AreSendable nil = Unit
  AreSendable (cons v vs) = IsSendable v × AreSendable vs

-- What arrives: the line breaks of simple strings and errors are spaces.
abbrev mutual
  pub arriving : Value → Value
  arriving (simple_string s) = simple_string (replace_breaks s)
  arriving (error s) = error (replace_breaks s)
  arriving (array vs) = array (all_arriving vs)
  arriving v = v

  pub all_arriving : Values → Values
  all_arriving nil = nil
  all_arriving (cons v vs) = cons (arriving v) (all_arriving vs)

IsText-replace_breaks : (s : Bytes) → IsText (replace_breaks s)
unfolding replace_breaks replace_break
IsText-replace_breaks [] = tt
IsText-replace_breaks (c ∷ cs) = (ground arith, IsText-replace_breaks cs)

-- A line of the writer, in front of what follows.
read_line-crlf : (s rest : Bytes) → IsText s → read_line ((s ++ crlf) ++ rest) ≡ ok (s, rest)
read_line-crlf s rest h = rw (append_assoc s crlf rest) (read_line-append s rest h)

read_number-crlf :
    (n : ℤ) (rest : Bytes) → IsI64 n → read_number ((format_int n ++ crlf) ++ rest) ≡ ok (n, rest)
read_number-crlf n rest h =
    rw (append_assoc (format_int n) crlf rest) (read_number-append n rest h (format_int-no_break n))

-- A length and what stands behind it.
read_number-length :
    (n : ℕ) (more rest : Bytes)
    → n < 2 ^ 63
    → read_number ((format_nat n ++ (crlf ++ more)) ++ rest) ≡ ok (pos n, more ++ rest)
unfolding format_int
read_number-length n more rest h =
    rw (append_assoc (format_nat n) (crlf ++ more) rest)
      (read_number-append (pos n) (more ++ rest) h (format_int-no_break (pos n)))

read_full-crlf :
    (s rest : Bytes) → read_full (length s + 2) ((s ++ crlf) ++ rest) ≡ ok (s ++ crlf, rest)
unfolding read_full
read_full-crlf s rest =
    let two : length s + 2 ≡ length (s ++ crlf) = omega (arith, length-append s crlf) in
    rw two (first_byte s (fill-append (s ++ crlf) rest))
  where
    first_byte :
        (t : Bytes)
        → fill (length (t ++ crlf)) ((t ++ crlf) ++ rest) ≡ ok (t ++ crlf, rest)
        → read_full (length (t ++ crlf)) ((t ++ crlf) ++ rest) ≡ ok (t ++ crlf, rest)
    first_byte [] h = h
    first_byte (c ∷ cs) h = h

read_bulk_body-append :
    (s rest : Bytes)
    → length s ≤ max_bulk_len
    → read_bulk_body (pos (length s)) ((s ++ crlf) ++ rest) ≡ ok (bulk_string s, rest)
unfolding read_bulk_body
read_bulk_body-append s rest h = ground (arith, read_full-crlf s rest, take-append s crlf)

-- A sendable value is written whole, with no error.
mutual
  unfolding write_value

  write_value-done : (v : Value) → IsSendable v → (write_value v).1 ≡ true
  write_value-done (simple_string s) h = refl
  write_value-done (error s) h = refl
  write_value-done (integer n) h = refl
  write_value-done (bulk_string s) h = refl
  write_value-done null_bulk h = refl
  write_value-done (array vs) h = write_values-done vs h.1
  write_value-done null_array h = refl
  write_value-done (map_value m) h = absurd h
  write_value-done (push vs) h = absurd h
  write_value-done (other c) h = absurd h

  write_values-done : (vs : Values) → AreSendable vs → (write_values vs).1 ≡ true
  write_values-done nil h = refl
  write_values-done (cons v vs) h = ground (arith, write_value-done v, write_values-done vs)

write_values-cons :
    (v : Value) (vs : Values) (rest : Bytes)
    → IsSendable v
    → (write_values (cons v vs)).0 ++ rest ≡ (write_value v).0 ++ ((write_values vs).0 ++ rest)
unfolding write_value
write_values-cons v vs rest h =
    ground (arith, write_value-done v h, append_assoc (write_value v).0 (write_values vs).0 rest)

length-write_values-cons :
    (v : Value) (vs : Values)
    → IsSendable v
    → length (write_values (cons v vs)).0 ≡ length (write_value v).0 + length (write_values vs).0
unfolding write_value
length-write_values-cons v vs h =
    ground (arith, write_value-done v h, length-append (write_value v).0 (write_values vs).0)

-- An array's header takes two bytes at least beside its elements.
length-write_header : (c n : ℕ) → 3 ≤ length (write_header c n)
unfolding write_header
length-write_header c n = omega (arith, length-append (format_nat n) crlf)

read_header :
    (n : ℕ) (more rest : Bytes)
    → n < 2 ^ 63
    → read_number (((format_nat n ++ crlf) ++ more) ++ rest) ≡ ok (pos n, more ++ rest)
read_header n more rest h =
    rw (append_assoc (format_nat n) crlf more) (read_number-length n more rest h)

-- One lemma for each kind of value.
module _ (f : ℕ) (rest : Bytes) where
  read-simple_string :
      (s : Bytes)
      → read_fuel (suc f) (write_simple_string s ++ rest)
        ≡ ok (simple_string (replace_breaks s), rest)
  unfolding read_fuel write_simple_string read_simple_string
  read-simple_string s =
      ground (arith, read_line-crlf (replace_breaks s) rest (IsText-replace_breaks s))

  read-error :
      (s : Bytes) → read_fuel (suc f) (write_error s ++ rest) ≡ ok (error (replace_breaks s), rest)
  unfolding read_fuel write_error read_error
  read-error s = ground (arith, read_line-crlf (replace_breaks s) rest (IsText-replace_breaks s))

  read-integer :
      (n : ℤ) → IsI64 n → read_fuel (suc f) (write_integer n ++ rest) ≡ ok (integer n, rest)
  unfolding read_fuel write_integer read_integer
  read-integer n h = ground (arith, read_number-crlf n rest h)

  read-bulk_string :
      (s : Bytes)
      → length s ≤ max_bulk_len
      → read_fuel (suc f) (write_bulk_string s ++ rest) ≡ ok (bulk_string s, rest)
  unfolding read_fuel write_bulk_string read_bulk_string
  read-bulk_string s h = ground (
    arith,
    read_number-length (length s) (s ++ crlf) rest (omega arith),
    read_bulk_body-append s rest h,
  )

  read-null : read_fuel (suc f) (write_null ++ rest) ≡ ok (null_bulk, rest)
  unfolding read_fuel write_null read_bulk_string read_number read_line read_string strip_cr
      parse_int negative parse_nat parse_digits read_bulk_body
  read-null = refl

  read-null_array : read_fuel (suc f) (write_null_array ++ rest) ≡ ok (null_array, rest)
  unfolding read_fuel write_null_array read_array read_number read_line read_string strip_cr
      parse_int negative parse_nat parse_digits read_array_body
  read-null_array = refl

  read-array :
      (vs : Values) (vs' : Values) (more : Bytes)
      → count vs ≤ max_array_len
      → read_elements (read_fuel f) (count vs) (more ++ rest) ≡ ok (vs', rest)
      → read_fuel (suc f) ((write_header b'*' (count vs) ++ more) ++ rest) ≡ ok (array vs', rest)
  unfolding read_fuel write_header read_array read_array_body
  read-array vs vs' more h e = ground (arith, read_header (count vs) more rest (omega arith), e)

mutual
  unfolding write_value read_fuel read_elements

  read-write :
      (v : Value) (f : ℕ) (rest : Bytes)
      → IsSendable v
      → length (write_value v).0 ≤ suc f
      → read_fuel (suc f) ((write_value v).0 ++ rest) ≡ ok (arriving v, rest)
  read-write (simple_string s) f rest h l = read-simple_string f rest s
  read-write (error s) f rest h l = read-error f rest s
  read-write (integer n) f rest h l = read-integer f rest n h
  read-write (bulk_string s) f rest h l = read-bulk_string f rest s h
  read-write null_bulk f rest h l = read-null f rest
  read-write (array vs) zero rest h l = absurd (
      omega (
        arith,
        length-write_header b'*' (count vs),
        length-append (write_header b'*' (count vs)) (write_values vs).0,
      ))
  read-write (array vs) (suc f) rest h l =
      read-array (suc f) rest vs (all_arriving vs) (write_values vs).0 h.0 (
        read_elements-write vs f rest h.1 (
          omega (
            arith,
            length-write_header b'*' (count vs),
            length-append (write_header b'*' (count vs)) (write_values vs).0,
          )))
  read-write null_array f rest h l = read-null_array f rest
  read-write (map_value m) f rest h l = absurd h
  read-write (push vs) f rest h l = absurd h
  read-write (other c) f rest h l = absurd h

  read_elements-write :
      (vs : Values) (f : ℕ) (rest : Bytes)
      → AreSendable vs
      → length (write_values vs).0 ≤ suc f
      → read_elements (read_fuel (suc f)) (count vs) ((write_values vs).0 ++ rest)
        ≡ ok (all_arriving vs, rest)
  read_elements-write nil f rest h l = refl
  read_elements-write (cons v vs) f rest h l =
      let rest' : Bytes = (write_values vs).0 ++ rest in
      let l' = length-write_values-cons v vs h.0 in
      rw (write_values-cons v vs rest h.0) (
        ground (
          arith,
          read-write v f rest' h.0 (omega (arith, l')),
          read_elements-write vs f rest h.1 (omega (arith, l')),
        ))

-- What the writer wrote for a sendable value, the reader reads back with the line breaks of simple
-- strings and errors as spaces, and it leaves whatever follows.
pub read-write_value :
    (v : Value) (rest : Bytes)
    → IsSendable v
    → ((write_value v).1 ≡ true) × (read ((write_value v).0 ++ rest) ≡ ok (arriving v, rest))
unfolding read
read-write_value v rest h = (
  write_value-done v h,
  read-write v (length ((write_value v).0 ++ rest)) rest h
      (omega (arith, length-append (write_value v).0 rest)),
)
