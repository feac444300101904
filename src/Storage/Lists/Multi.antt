-- ===== src/Storage/Lists/Multi.antt =====
-- The pops of internal/storage/querier.go that look at several keys: `popMulti` for BLPOP and BRPOP, `popMultiN` for
-- LMPOP. The rows that have not expired are popped, from the first key in the caller's order that has any.
use postkeys.Base.{ℕ, zero, suc, Option, none, some, List, [], ◌∷◌, map, if◌then◌else◌}
use postkeys.Base.Int.{ℤ, pos, negsuc}
use postkeys.Base.Bytes.{Bytes}
use postkeys.Storage.Tables.{is_live, Db}
use postkeys.Storage.Lists.{Row, value_of, list_rows, set_list}
use postkeys.Storage.Lists.Access.{reverse_rows}

-- Up to so many live rows from the left, in order, and the rows that stay.
unfoldable pub take_live : ℕ → ℕ → List Row → List Row × List Row
take_live now n [] = ([], [])
take_live now zero (r ∷ rows) = ([], r ∷ rows)
take_live now (suc n) (r ∷ rows) =
    let less = take_live now n rows in
    let same = take_live now (suc n) rows in
    if is_live now r.1 then (r ∷ less.0, less.1) else (same.0, r ∷ same.1)

pub data Side : Type 0 where
  left : Side
  right : Side

-- From the right, the last row comes first.
unfoldable pub take_side : Side → ℕ → ℕ → List Row → List Row × List Row
take_side left now n rows = take_live now n rows
take_side right now n rows =
    let taken = take_live now n (reverse_rows rows []) in (taken.0, reverse_rows taken.1 [])

-- The first key with a live row.
popped :
    Bytes
    → List Row × List Row
    → Option (Bytes × List Bytes) × Db
    → Db
    → Option (Bytes × List Bytes) × Db
popped key ([], rows) later db = later
popped key (r ∷ taken, rows) later db = (some (key, map value_of (r ∷ taken)), set_list key rows db)

unfoldable pub pop_keys : Side → ℕ → ℕ → List Bytes → Db → Option (Bytes × List Bytes) × Db
unfolding popped
pop_keys side now n [] db = (none, db)
pop_keys side now n (key ∷ keys) db =
    popped key (take_side side now n (list_rows key db)) (pop_keys side now n keys db) db

unfoldable pub pop_multi_n : Side → ℕ → ℤ → List Bytes → Db → Option (Bytes × List Bytes) × Db
pop_multi_n side now (pos n) keys db = pop_keys side now n keys db
pop_multi_n side now (negsuc n) keys db = (none, db)

first_popped : Option (Bytes × List Bytes) → Option (Bytes × Bytes)
first_popped none = none
first_popped (some (key, [])) = none
first_popped (some (key, v ∷ values)) = some (key, v)

unfoldable pub pop_multi : Side → ℕ → List Bytes → Db → Option (Bytes × Bytes) × Db
unfolding first_popped
pop_multi side now keys db = let one = pop_keys side now 1 keys db in (first_popped one.0, one.1)
