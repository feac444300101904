-- ===== src/Resp/Writer.antt =====
-- The `Writer` of internal/resp/resp.go, over a buffer that takes every byte.
pub mod Strings
use postkeys.Base.{ℕ, zero, suc, ◌+◌, ◌*◌, ◌^◌, ◌≡◌, Bool, true, false, ◌&&◌, Option, none, some}
use postkeys.Base.{List, [], ◌∷◌, ◌++◌, map, ltb, leb, ◌==◌, compare_numbers, length, if◌then◌else◌}
use postkeys.Base.Int.{ℤ, pos, negsuc, eq_ℤ, ltb_ℤ}
use postkeys.Base.Bytes.{Bytes, codes, format_nat, format_int, parse_int, has_prefix}
use postkeys.Resp.{Value, simple_string, error, integer, bulk_string, null_bulk, array, null_array}
use postkeys.Resp.{map_value, push, other, Values, nil, cons, count, cr, lf}

-- What was written, and whether the writer returned no error.
abbrev pub Output : Type 0
Output = Bytes × Bool

-- A write, and the next if that returned no error.
infixr 60 ◌then_write◌
abbrev pub ◌then_write◌ : Output → Output → Output
(a, done) then_write (b, done') = if done then (a ++ b, done') else (a, false)

-- `lineBreaks.Replace`.
unfoldable pub replace_break : ℕ → ℕ
replace_break c = if c == cr then b' ' else if c == lf then b' ' else c

unfoldable pub replace_breaks : Bytes → Bytes
replace_breaks s = map replace_break s

abbrev pub crlf : Bytes
crlf = cr ∷ lf ∷ []

unfoldable pub write_simple_string : Bytes → Bytes
write_simple_string s = b'+' ∷ (replace_breaks s ++ crlf)

unfoldable pub write_error : Bytes → Bytes
write_error s = b'-' ∷ (replace_breaks s ++ crlf)

unfoldable pub write_integer : ℤ → Bytes
write_integer n = b':' ∷ (format_int n ++ crlf)

unfoldable pub write_bulk_string : Bytes → Bytes
write_bulk_string s = b'$' ∷ (format_nat (length s) ++ (crlf ++ (s ++ crlf)))

unfoldable pub write_null : Bytes
write_null = codes "$-1" ++ crlf

unfoldable pub write_null_array : Bytes
write_null_array = codes "*-1" ++ crlf

-- The first line of an array, a push or a map.
unfoldable pub write_header : ℕ → ℕ → Bytes
write_header c n = c ∷ (format_nat n ++ crlf)

unfoldable pub write_pairs : List (Bytes × Bytes) → Bytes
write_pairs [] = []
write_pairs ((k, v) ∷ rest) = write_bulk_string k ++ (write_bulk_string v ++ write_pairs rest)

unfoldable pub write_map : List (Bytes × Bytes) → Bytes
write_map m = write_header b'%' (length m) ++ write_pairs m

unfoldable pub write_bulk_strings : List Bytes → Bytes
write_bulk_strings [] = []
write_bulk_strings (s ∷ rest) = write_bulk_string s ++ write_bulk_strings rest

pub write_string_array : List Bytes → Bytes
write_string_array arr = write_header b'*' (length arr) ++ write_bulk_strings arr

unfoldable mutual
  pub write_value : Value → Output
  write_value (simple_string s) = (write_simple_string s, true)
  write_value (error s) = (write_error s, true)
  write_value (integer n) = (write_integer n, true)
  write_value (bulk_string s) = (write_bulk_string s, true)
  write_value null_bulk = (write_null, true)
  write_value (array vs) = (write_header b'*' (count vs), true) then_write write_values vs
  write_value null_array = (write_null_array, true)
  write_value (map_value m) = (write_map m, true)
  write_value (push vs) = (write_header b'>' (count vs), true) then_write write_values vs
  write_value (other c) = ([], false)

  -- The loop of `WriteArray` and `WritePush`.
  pub write_values : Values → Output
  write_values nil = ([], true)
  write_values (cons v vs) = write_value v then_write write_values vs
