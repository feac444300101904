-- ===== src/Handler/Keys/Positions.antt =====
-- Which arguments of a command are keys, told by their positions.
use postkeys.Base.{
  ℕ, suc, ◌+◌, ◌%◌, Bool, true, false, ◌&&◌, ◌||◌, Option, none, some, List, [], ◌∷◌, length, drop,
  if◌then◌else◌, ltb, leb, ◌==◌, compare_numbers,
}
use postkeys.Base.Int.{ℤ, pos, negsuc}
use postkeys.Base.Bytes.{Bytes, codes, parse_int, compare_bytes}
use postkeys.Base.Set.{contains}
use postkeys.Resp.{Value}
use postkeys.Handler.Arguments.{bulk}
use postkeys.Handler.Keys.{without_keys, keys_only}

-- The arguments, numbered from `i`, at the positions that `p` allows.
abbrev pub chosen : (ℕ → Bool) → ℕ → List Value → List Bytes
chosen p i [] = []
chosen p i (a ∷ args) = if p i then bulk a ∷ chosen p (suc i) args else chosen p (suc i) args

-- The count at the head of the arguments, 0 if it is no number, negative, or larger than what follows.
abbrev valid_count : Option ℤ → ℕ → ℕ
valid_count none total = 0
valid_count (some (negsuc n)) total = 0
valid_count (some (pos n)) total = if ltb total n then 0 else n

abbrev key_count : List Value → ℕ
key_count [] = 0
key_count (a ∷ rest) = valid_count (parse_int (bulk a)) (length rest)

-- As many positions behind `p` as the argument at `p` counts.
abbrev is_counted : ℕ → List Value → ℕ → Bool
is_counted p args i = ltb p i && leb i (p + key_count (drop p args))

-- The positions of the keys among the arguments of each command.
abbrev pub is_key : Bytes → List Value → ℕ → Bool
is_key name args i =
    if contains name without_keys
    then false
    else if contains name keys_only
    then true
    else if contains name (codes "MSET" ∷ [])
    then i % 2 == 0
    else if contains name
        (codes "RENAME" ∷ (codes "COPY" ∷ (codes "RPOPLPUSH" ∷ (codes "ZRANGESTORE" ∷ []))))
    then leb 2 (length args) && ltb i 2
    else if contains name (codes "BLPOP" ∷ (codes "BRPOP" ∷ []))
    then ltb (i + 1) (length args)
    else if contains name (codes "LMPOP" ∷ (codes "ZMPOP" ∷ (codes "SINTERCARD" ∷ [])))
    then is_counted 0 args i
    else if contains name (codes "BLMPOP" ∷ (codes "BZMPOP" ∷ []))
    then is_counted 1 args i
    else if contains name (codes "ZUNIONSTORE" ∷ (codes "ZINTERSTORE" ∷ []))
    then i == 0 || is_counted 1 args i
    else if contains name (codes "BITOP" ∷ [])
    then leb 2 (length args) && ltb 0 i
    else if contains name (codes "EVAL" ∷ (codes "EVALSHA" ∷ []))
    then is_counted 1 args i
    else i == 0
