-- ===== src/Handler/Keys.antt =====
-- `commandKeys` of internal/handler/keys.go. `command_keys` is what it returns where it returns, and
-- `command_panics` says where the Go runtime stops it: the end of a slice, `i+1+n`, wraps round to a
-- negative number.
pub mod Positions
use postkeys.Base.{ℕ, zero, suc, ◌-◌, Bool, Option, none, some, List, [], ◌∷◌, length, take, drop}
use postkeys.Base.{◌+◌, ◌^◌, ltb, leb, false, if◌then◌else◌}
use postkeys.Base.Int.{ℤ, pos, negsuc}
use postkeys.Base.Bytes.{Bytes, codes, parse_int, compare_bytes}
use postkeys.Base.Set.{contains}
use postkeys.Resp.{Value}
use postkeys.Handler.Arguments.{bulk, bulks}

-- The keys behind a count: none if the count is no number, negative, or larger than what follows.
keys_counted : Option ℤ → List Value → List Bytes
keys_counted none rest = []
keys_counted (some (negsuc n)) rest = []
keys_counted (some (pos n)) rest = if ltb (length rest) n then [] else take n (bulks rest)

numkeys : List Value → List Bytes
numkeys [] = []
numkeys (a ∷ rest) = keys_counted (parse_int (bulk a)) rest

numkeys_at : ℕ → List Value → List Bytes
numkeys_at i args = numkeys (drop i args)

-- The arguments at the even positions.
every_other : List Value → List Bytes
every_other [] = []
every_other (a ∷ []) = bulk a ∷ []
every_other (a ∷ (b ∷ rest)) = bulk a ∷ every_other rest

first_two : List Value → List Bytes
first_two (a ∷ (b ∷ rest)) = bulk a ∷ (bulk b ∷ [])
first_two _ = []

all_but_last : List Value → List Bytes
all_but_last args = take (length args - 1) (bulks args)

destination_and_numkeys : List Value → List Bytes
destination_and_numkeys [] = []
destination_and_numkeys (a ∷ rest) = bulk a ∷ numkeys rest

all_but_first : List Value → List Bytes
all_but_first (a ∷ (b ∷ rest)) = bulk b ∷ bulks rest
all_but_first _ = []

first : List Value → List Bytes
first [] = []
first (a ∷ rest) = bulk a ∷ []

abbrev without_keys : List Bytes
without_keys =
    codes "PING"
    ∷ (codes "ECHO"
        ∷ (codes "KEYS"
            ∷ (codes "SCAN"
                ∷ (codes "RANDOMKEY"
                    ∷ (codes "INFO"
                        ∷ (codes "DBSIZE"
                            ∷ (codes "SCRIPT"
                                ∷ (codes "WATCH" ∷ (codes "UNWATCH" ∷ (codes "OBJECT" ∷ []))))))))))

abbrev keys_only : List Bytes
keys_only =
    codes "DEL"
    ∷ (codes "UNLINK"
        ∷ (codes "EXISTS"
            ∷ (codes "MGET"
                ∷ (codes "SINTER"
                    ∷ (codes "SUNION"
                        ∷ (codes "SDIFF"
                            ∷ (codes "SINTERSTORE"
                                ∷ (codes "SUNIONSTORE"
                                    ∷ (codes "SDIFFSTORE"
                                        ∷ (codes "PFCOUNT" ∷ (codes "PFMERGE" ∷ [])))))))))))

unfoldable pub command_keys : Bytes → List Value → List Bytes
unfolding keys_counted numkeys numkeys_at every_other first_two all_but_last destination_and_numkeys
    all_but_first first
command_keys name args =
    if contains name without_keys
    then []
    else if contains name keys_only
    then bulks args
    else if contains name (codes "MSET" ∷ [])
    then every_other args
    else if contains name
        (codes "RENAME" ∷ (codes "COPY" ∷ (codes "RPOPLPUSH" ∷ (codes "ZRANGESTORE" ∷ []))))
    then first_two args
    else if contains name (codes "BLPOP" ∷ (codes "BRPOP" ∷ []))
    then all_but_last args
    else if contains name (codes "LMPOP" ∷ (codes "ZMPOP" ∷ (codes "SINTERCARD" ∷ [])))
    then numkeys_at 0 args
    else if contains name (codes "BLMPOP" ∷ (codes "BZMPOP" ∷ []))
    then numkeys_at 1 args
    else if contains name (codes "ZUNIONSTORE" ∷ (codes "ZINTERSTORE" ∷ []))
    then destination_and_numkeys args
    else if contains name (codes "BITOP" ∷ [])
    then all_but_first args
    else if contains name (codes "EVAL" ∷ (codes "EVALSHA" ∷ []))
    then numkeys_at 1 args
    else first args

-- The sum is not below `len(args)` because it is negative, and no slice ends there.
count_panics : ℕ → Option ℤ → Bool
count_panics i none = false
count_panics i (some (negsuc n)) = false
count_panics i (some (pos n)) = leb (2 ^ 63) (i + 1 + n)

first_panics : ℕ → List Value → Bool
first_panics i [] = false
first_panics i (a ∷ rest) = count_panics i (parse_int (bulk a))

numkeys_panics : ℕ → List Value → Bool
unfolding count_panics first_panics
numkeys_panics i args = first_panics i (drop i args)

unfoldable pub command_panics : Bytes → List Value → Bool
unfolding numkeys_panics
command_panics name args =
    if contains name (codes "LMPOP" ∷ (codes "ZMPOP" ∷ (codes "SINTERCARD" ∷ [])))
    then numkeys_panics 0 args
    else if contains name (
        codes "BLMPOP"
        ∷ (codes "BZMPOP"
            ∷ (codes "ZUNIONSTORE"
                ∷ (codes "ZINTERSTORE" ∷ (codes "EVAL" ∷ (codes "EVALSHA" ∷ []))))))
    then numkeys_panics 1 args
    else false
