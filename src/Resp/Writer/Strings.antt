-- ===== src/Resp/Writer/Strings.antt =====
-- `WriteStringArray` against `WriteArray`.
use postkeys.Base.{◌≡◌, refl, List, [], ◌∷◌, true, length, arith}
use postkeys.Base.Bytes.{Bytes}
use postkeys.Resp.{bulk_string, array, Values, nil, cons, count}
use postkeys.Resp.Writer.{write_string_array, write_bulk_strings, write_value, write_values}

abbrev pub bulks : List Bytes → Values
bulks [] = nil
bulks (s ∷ rest) = cons (bulk_string s) (bulks rest)

count-bulks : (arr : List Bytes) → count (bulks arr) ≡ length arr
count-bulks [] = refl
count-bulks (s ∷ rest) = omega (arith, count-bulks rest)

write_values-bulks : (arr : List Bytes) → write_values (bulks arr) ≡ (write_bulk_strings arr, true)
unfolding write_values write_bulk_strings
write_values-bulks [] = refl
write_values-bulks (s ∷ rest) = ground (arith, write_values-bulks rest)

-- The short way to write an array of strings writes, byte for byte, what the general way writes for
-- the array of those bulk strings.
pub write_string_array-eq-write_value :
    (arr : List Bytes) → write_value (array (bulks arr)) ≡ (write_string_array arr, true)
unfolding write_value write_string_array
write_string_array-eq-write_value arr = ground (arith, count-bulks arr, write_values-bulks arr)
