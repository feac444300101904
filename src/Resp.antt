-- ===== src/Resp.antt =====
-- internal/resp/resp.go: the values of the protocol and the constructors of replies.
pub mod Reader
pub mod Writer
use postkeys.Base.{ℕ, zero, suc, ◌+◌, ◌*◌, ◌^◌, ◌≡◌, Bool, true, false, ◌&&◌, Option, none, some}
use postkeys.Base.{List, [], ◌∷◌, ◌++◌, map, ltb, leb, ◌==◌, compare_numbers, length, if◌then◌else◌}
use postkeys.Base.Int.{ℤ, pos, negsuc, eq_ℤ, ltb_ℤ}
use postkeys.Base.Bytes.{Bytes, codes, format_nat, format_int, parse_int, has_prefix}

abbrev pub max_bulk_len : ℕ
max_bulk_len = 512 * 1024 * 1024

abbrev pub max_array_len : ℕ
max_array_len = 2 ^ 20

abbrev pub cr : ℕ
cr = 13

abbrev pub lf : ℕ
lf = 10

-- The struct `Value` with the fields that its `Type` gives a meaning: `null_bulk` and `null_array`
-- have `Null` set, and `other` is a value of any type byte that the writer does not know.
mutual
  pub data Value : Type 0 where
    simple_string : Bytes → Value
    error : Bytes → Value
    integer : ℤ → Value
    bulk_string : Bytes → Value
    null_bulk : Value
    array : Values → Value
    null_array : Value
    map_value : List (Bytes × Bytes) → Value
    push : Values → Value
    other : ℕ → Value

  pub data Values : Type 0 where
    nil : Values
    cons : Value → Values → Values

abbrev pub count : Values → ℕ
count nil = 0
count (cons v vs) = suc (count vs)

-- The constructors of replies.
abbrev pub ok_reply : Value
ok_reply = simple_string (codes "OK")

unfoldable pub err_reply : Bytes → Value
err_reply msg = if has_prefix msg (codes "ERR ") then error msg else error (codes "ERR " ++ msg)

unfoldable pub err_wrong_args : Bytes → Value
err_wrong_args cmd =
    error (codes "ERR wrong number of arguments for '" ++ (cmd ++ codes "' command"))
