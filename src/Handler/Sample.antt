-- ===== src/Handler/Sample.antt =====
-- A small store to run the handlers on: a counter that every command adds one to, and its value in the
-- open transaction. The next commits fail by a conflict, `conflicts` of them.
use postkeys.Base.{ℕ, zero, suc, Bool, true, false, Option, none, some, List, [], ◌∷◌}
use postkeys.Base.Bytes.{Bytes, codes}
use postkeys.Resp.{Value, Values, nil, cons, array, bulk_string}
use postkeys.Handler.Backend.{Backend, Failure}

pub record Counter : Type 0 where
  pub committed : ℕ
  pub pending : ℕ
  pub opened : Bool
  pub conflicts : ℕ

abbrev pub add_one : Bytes → Counter → Value × Counter
add_one name w = (bulk_string name, record w { committed = suc w.committed })

abbrev pub add_pending : Bytes → Counter → Value × Counter
add_pending name w = (bulk_string name, record w { pending = suc w.pending })

abbrev pub commit_pending : ℕ → Counter → Option Failure × Counter
commit_pending zero w = (none, record w { committed = w.pending; opened = false })
commit_pending (suc n) w =
    (some (record { text = codes "conflict"; retryable = true }), record w { conflicts = n })

abbrev pub sample_backend : Backend
sample_backend = record {
  World = Counter;
  execute_with_ops = λ version name args w. add_one name w;
  execute_in_tx = λ version name args w. add_pending name w;
  begin_tx = λ w. (none, record w { pending = w.committed; opened = true });
  lock_keys = λ keys w. (none, w);
  commit = λ w. commit_pending w.conflicts w;
  rollback = λ w. record w { pending = w.committed; opened = false };
  back_off = λ n w. (none, w);
  flush_db = λ w. (none, record w { committed = 0 });
  publish = λ channel message w. (none, w);
}

abbrev pub start : Counter
start = record { committed = 0; pending = 0; opened = false; conflicts = 1 }

abbrev pub strings : List Bytes → Values
strings [] = nil
strings (s ∷ rest) = cons (bulk_string s) (strings rest)

abbrev pub request : List Bytes → Value
request words = array (strings words)
