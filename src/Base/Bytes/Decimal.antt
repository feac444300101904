-- ===== src/Base/Bytes/Decimal.antt =====
-- `strconv.FormatInt(n, 10)`, and `strconv.ParseInt(s, 10, 64)`, which is `strconv.Atoi` on a
-- 64-bit machine.
use Prim.Native.Nat.{ℕ, zero, suc, ◌+◌, ◌-◌, ◌*◌, ◌/◌, ◌%◌, ◌^◌, ◌≤◌}
use mathlib.Core.Path.{◌≡◌, refl}
use mathlib.Core.Bool.{◌&&◌}
use mathlib.Core.Option.{Option, none, some}
use mathlib.Core.Logic.{◌≢◌}
use mathlib.Core.List.{List, [], ◌∷◌}
use native.Mathlib.Omega.{arith}
use postkeys.Base.Tests.{ltb, leb, same_number, if◌then◌else◌}
use postkeys.Base.Lists.{All}
use postkeys.Base.Int.{ℤ, pos, negsuc, IsI64}

-- The decimal digits of `n` before `acc`; fuel `n` is enough.
format_loop : ℕ → ℕ → List ℕ → List ℕ
format_loop zero n acc = (n + 48) ∷ acc
format_loop (suc f) n acc =
    let rest = format_loop f (n / 10) ((n % 10 + 48) ∷ acc) in
    if ltb n 10 then (n + 48) ∷ acc else rest

unfoldable pub format_nat : ℕ → List ℕ
unfolding format_loop
format_nat n = format_loop n n []

unfoldable pub format_int : ℤ → List ℕ
format_int (pos n) = format_nat n
format_int (negsuc n) = b'-' ∷ format_nat (suc n)

-- The digits of `s` after the value `acc`; `none` at any other byte.
unfoldable pub parse_digits : ℕ → List ℕ → Option ℕ
parse_digits acc [] = some acc
parse_digits acc (c ∷ cs) =
    let rest = parse_digits (acc * 10 + (c - 48)) cs in if leb 48 c && leb c 57 then rest else none

unfoldable pub parse_nat : List ℕ → Option ℕ
parse_nat [] = none
parse_nat (c ∷ cs) = parse_digits 0 (c ∷ cs)

unfoldable pub non_negative : Option ℕ → Option ℤ
non_negative none = none
non_negative (some n) = if ltb n (2 ^ 63) then some (pos n) else none

unfoldable pub negative : Option ℕ → Option ℤ
negative none = none
negative (some n) =
    if same_number n 0 then some (pos 0) else if leb n (2 ^ 63) then some (negsuc (n - 1)) else none

-- An optional sign, then one digit or more, within the range of an int64.
unfoldable pub parse_int : List ℕ → Option ℤ
parse_int [] = none
parse_int (c ∷ cs) =
    if same_number c b'-'
    then negative (parse_nat cs)
    else if same_number c b'+'
    then non_negative (parse_nat cs)
    else non_negative (parse_nat (c ∷ cs))

-- What `format_loop` wrote is read back before what stands behind it.
parse-format_loop :
    (f n : ℕ) (acc : List ℕ) → n ≤ f → parse_digits 0 (format_loop f n acc) ≡ parse_digits n acc
unfolding format_loop parse_digits
parse-format_loop zero n acc h = ground arith
parse-format_loop (suc f) n acc h =
    ground (arith, parse-format_loop f (n / 10) ((n % 10 + 48) ∷ acc))

abbrev IsDigit : ℕ → Type 0
IsDigit c = (48 ≤ c) × (c ≤ 57)

format_loop-IsDigit :
    (f n : ℕ) (acc : List ℕ) → n ≤ f → All IsDigit acc → All IsDigit (format_loop f n acc)
unfolding format_loop
format_loop-IsDigit zero n acc h a = ground arith
format_loop-IsDigit (suc f) n acc h a =
    ground (arith, format_loop-IsDigit f (n / 10) ((n % 10 + 48) ∷ acc))

format_loop-ne-nil : (f n : ℕ) (acc : List ℕ) → format_loop f n acc ≢ []
unfolding format_loop
format_loop-ne-nil zero n acc e = cc
format_loop-ne-nil (suc f) n acc e =
    ground (arith, format_loop-ne-nil f (n / 10) ((n % 10 + 48) ∷ acc))

parse_nat-format_nat : (n : ℕ) → parse_nat (format_nat n) ≡ some n
parse_nat-format_nat n =
    go (format_nat n) (unfold format_nat in format_loop-ne-nil n n [])
      (unfold format_nat parse_digits in parse-format_loop n n [] (omega arith))
  where
    go : (s : List ℕ) → s ≢ [] → parse_digits 0 s ≡ some n → parse_nat s ≡ some n
    go [] ne e = absurd (ne refl)
    go (c ∷ cs) ne e = unfold parse_nat in e

pub format_nat-IsDigit : (n : ℕ) → All IsDigit (format_nat n)
unfolding format_nat
format_nat-IsDigit n = format_loop-IsDigit n n [] (omega arith) tt

-- Every int64 that was printed is read back.
pub parse_int-format_int : (n : ℤ) → IsI64 n → parse_int (format_int n) ≡ some n
unfolding format_int
parse_int-format_int (pos n) h = go (format_nat n) (format_nat-IsDigit n) (parse_nat-format_nat n)
  where
    go : (s : List ℕ) → All IsDigit s → parse_nat s ≡ some n → parse_int s ≡ some (pos n)
    go [] d e = unfold parse_nat in cc
    go (c ∷ cs) d e = unfold parse_int non_negative in ground arith
parse_int-format_int (negsuc n) h =
    unfold parse_int negative in rw (parse_nat-format_nat (suc n)) (ground arith)

digits-no_break : (s : List ℕ) → All IsDigit s → All (λ c. c ≢ 10) s
digits-no_break [] h = tt
digits-no_break (c ∷ cs) h = (omega arith, digits-no_break cs h.1)

-- A printed number has no line feed in it.
pub format_nat-no_break : (n : ℕ) → All (λ c. c ≢ 10) (format_nat n)
format_nat-no_break n = digits-no_break (format_nat n) (format_nat-IsDigit n)

pub format_int-no_break : (n : ℤ) → All (λ c. c ≢ 10) (format_int n)
unfolding format_int
format_int-no_break (pos n) = format_nat-no_break n
format_int-no_break (negsuc n) = (omega arith, format_nat-no_break (suc n))
