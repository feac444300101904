-- ===== src/Storage/Lists/Refinement.antt =====
-- Every sequence of commands on a list key gives the replies that a list of values gives.
use mathlib.Core.Path.{subst}
use postkeys.Base.{ℕ, ◌≡◌, refl, ap, Option, List, [], ◌∷◌, ◌++◌, length}
use postkeys.Base.Int.{ℤ}
use postkeys.Base.Bytes.{Bytes}
use postkeys.Storage.Tables.{Db}
use postkeys.Storage.Lists.{
  Result, ok, failed, ListError, l_push, r_push, l_pop, r_pop, r_pop_l_push, list_rows,
}
use postkeys.Storage.Lists.Access.{l_range, l_trim, l_set}
use postkeys.Storage.Lists.Deque.{
  items, IsList, Holds, Pushes, push_left, l_push-Pushes, r_push-Pushes,
}
use postkeys.Storage.Lists.Pop.{uncons, unsnoc, l_pop-Pops, r_pop-Pops}
use postkeys.Storage.Lists.Ends.{range_of}
use postkeys.Storage.Lists.Trim.{range_values-range_of, l_trim-Holds}
use postkeys.Storage.Lists.Assign.{
  assign, Matches, both_failed, both_ok, l_set-Matches, rotate, Rotates, r_pop_l_push-Rotates,
}

pub data ListCommand : Type 0 where
  lpush : List Bytes → ListCommand
  rpush : List Bytes → ListCommand
  lpop : ListCommand
  rpop : ListCommand
  rpoplpush : ListCommand
  lrange : ℤ → ℤ → ListCommand
  ltrim : ℤ → ℤ → ListCommand
  lset : ℤ → Bytes → ListCommand

pub data Reply : Type 0 where
  count : ℕ → Reply
  element : Option Bytes → Reply
  elements : List Bytes → Reply
  done : Reply
  failure : ListError → Reply

-- The reply of a command on the tables; what failed is rolled back.
module _ {A : Type 0} (as_reply : A → Reply) where
  committed : Result (A × Db) → Db → Reply × Db
  committed (failed e) db = (failure e, db)
  committed (ok (a, after)) db = (as_reply a, after)

assigned : Result Db → Db → Reply × Db
assigned (failed e) db = (failure e, db)
assigned (ok after) db = (done, after)

read_values : Result (List Bytes) → Reply
read_values (failed e) = failure e
read_values (ok xs) = elements xs

unfoldable pub perform : ℕ → Bytes → ListCommand → Db → Reply × Db
unfolding committed assigned read_values
perform now key (lpush values) db = committed count (l_push now key values db) db
perform now key (rpush values) db = committed count (r_push now key values db) db
perform now key lpop db = (element (l_pop key db).0, (l_pop key db).1)
perform now key rpop db = (element (r_pop key db).0, (r_pop key db).1)
perform now key rpoplpush db = committed element (r_pop_l_push key key db) db
perform now key (lrange start stop) db = (read_values (l_range now key start stop db), db)
perform now key (ltrim start stop) db = (done, l_trim key start stop db)
perform now key (lset index v) db = assigned (l_set key index v db) db

-- The same commands on a list of values.
kept : Result (List Bytes) → List Bytes → Reply × List Bytes
kept (failed e) xs = (failure e, xs)
kept (ok ys) xs = (done, ys)

unfoldable pub expected : ListCommand → List Bytes → Reply × List Bytes
unfolding kept
expected (lpush values) xs = (count (length (push_left values xs)), push_left values xs)
expected (rpush values) xs = (count (length (xs ++ values)), xs ++ values)
expected lpop xs = (element (uncons xs).0, (uncons xs).1)
expected rpop xs = (element (unsnoc xs).0, (unsnoc xs).1)
expected rpoplpush xs = (element (rotate xs).0, (rotate xs).1)
expected (lrange start stop) xs = (elements (range_of start stop xs), xs)
expected (ltrim start stop) xs = (done, range_of start stop xs)
expected (lset index v) xs = kept (assign index v xs) xs

-- The replies of the commands in order, and what is left.
abbrev pub perform_all : ℕ → Bytes → List ListCommand → Db → List Reply × Db
perform_all now key [] db = ([], db)
perform_all now key (c ∷ commands) db =
    let first = perform now key c db in
    let rest = perform_all now key commands first.1 in (first.0 ∷ rest.0, rest.1)

abbrev pub expected_all : List ListCommand → List Bytes → List Reply × List Bytes
expected_all [] xs = ([], xs)
expected_all (c ∷ commands) xs =
    let first = expected c xs in
    let rest = expected_all commands first.1 in (first.0 ∷ rest.0, rest.1)

abbrev Refines : ℕ → Bytes → Reply × Db → Reply × List Bytes → Type 0
Refines now key result wanted = (result.0 ≡ wanted.0) × Holds now key wanted.1 result.1

Pushes-Refines :
    (now : ℕ) (key : Bytes) (result : Result (ℕ × Db)) (xs : List Bytes) (db : Db)
    → Pushes now key result xs
    → Refines now key (committed count result db) (count (length xs), xs)
unfolding committed
Pushes-Refines now key result xs db (after, (e, h)) = rw e (refl, h)

Rotates-Refines :
    (now : ℕ) (key : Bytes) (result : Result (Option Bytes × Db))
    (wanted : Option Bytes × List Bytes) (db : Db)
    → Rotates now key result wanted
    → Refines now key (committed element result db) (element wanted.0, wanted.1)
unfolding committed
Rotates-Refines now key result wanted db (after, (e, h)) = rw e (refl, h)

assigned-Refines :
    (now : ℕ) (key : Bytes) (r : Result Db) (s : Result (List Bytes)) (xs : List Bytes) (db : Db)
    → Holds now key xs db
    → Matches now key r s
    → Refines now key (assigned r db) (kept s xs)
unfolding assigned kept
assigned-Refines now key _ _ xs db h (both_failed e) = (refl, h)
assigned-Refines now key _ _ xs db h (both_ok after ys k) = (refl, k)

lrange-value :
    (now : ℕ) (key : Bytes) (start stop : ℤ) (db : Db)
    → IsList now key db
    → read_values (l_range now key start stop db) ≡ elements (range_of start stop (items key db))
unfolding l_range read_values
lrange-value now key start stop db h =
    rw h.0 (ap elements (range_values-range_of start stop (list_rows key db)))

-- One command, on the values of the key.
perform-expected :
    (now : ℕ) (key : Bytes) (c : ListCommand) (db : Db)
    → IsList now key db
    → Refines now key (perform now key c db) (expected c (items key db))
unfolding perform expected
perform-expected now key (lpush values) db h =
    Pushes-Refines now key (l_push now key values db) (push_left values (items key db)) db
      (l_push-Pushes now key values db h)
perform-expected now key (rpush values) db h =
    Pushes-Refines now key (r_push now key values db) (items key db ++ values) db
      (r_push-Pushes now key values db h)
perform-expected now key lpop db h =
    (ap element (l_pop-Pops now key db h).0, (l_pop-Pops now key db h).1)
perform-expected now key rpop db h =
    (ap element (r_pop-Pops now key db h).0, (r_pop-Pops now key db h).1)
perform-expected now key rpoplpush db h =
    Rotates-Refines now key (r_pop_l_push key key db) (rotate (items key db)) db
      (r_pop_l_push-Rotates now key db h)
perform-expected now key (lrange start stop) db h =
    (lrange-value now key start stop db h, (h, refl))
perform-expected now key (ltrim start stop) db h = (refl, l_trim-Holds now key start stop db h)
perform-expected now key (lset index v) db h =
    assigned-Refines now key (l_set key index v db) (assign index v (items key db)) (items key db)
      db (h, refl) (l_set-Matches now key index v db h)

-- On a key that is missing or a list, with rows in the order of their indices, any sequence of LPUSH, RPUSH, LPOP,
-- RPOP, RPOPLPUSH onto the key itself, LRANGE, LTRIM and LSET gives the replies of the same commands on the list
-- of the key's values, and leaves the key with the values that they leave there.
pub perform_all-expected_all :
    (now : ℕ) (key : Bytes) (commands : List ListCommand) (db : Db)
    → IsList now key db
    → ((perform_all now key commands db).0 ≡ (expected_all commands (items key db)).0)
      × Holds now key (expected_all commands (items key db)).1 (perform_all now key commands db).1
perform_all-expected_all now key [] db h = (refl, (h, refl))
perform_all-expected_all now key (c ∷ commands) db h =
    let reply : Reply = (perform now key c db).0 in
    let next : Db = (perform now key c db).1 in
    let first = perform-expected now key c db h in
    subst
      (λ xs.
        ((reply ∷ (perform_all now key commands next).0)
          ≡ ((expected c (items key db)).0 ∷ (expected_all commands xs).0))
        × Holds now key (expected_all commands xs).1 (perform_all now key commands next).1)
      first.1.1
      (
        replies reply (expected c (items key db)).0 first.0
            (perform_all-expected_all now key commands next first.1.0).0,
        (perform_all-expected_all now key commands next first.1.0).1,
      )
  where
    replies : (a b : Reply) {xs ys : List Reply} → a ≡ b → xs ≡ ys → (a ∷ xs) ≡ (b ∷ ys)
    replies a b e f = cc
