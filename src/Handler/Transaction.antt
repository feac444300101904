-- ===== src/Handler/Transaction.antt =====
-- MULTI, EXEC and DISCARD of internal/handler/handler.go, and `runTx`, which repeats a transaction that
-- met a deadlock or a serialization failure.
pub mod AtMostOnce
use postkeys.Base.{
  ℕ, zero, suc, ◌-◌, Bool, true, false, not, ◌&&◌, ◌||◌, Option, none, some, List, [], ◌∷◌, ◌++◌,
}
use postkeys.Base.{if◌then◌else◌, ltb}
use postkeys.Base.Bytes.{Bytes, codes, to_upper, has_prefix}
use postkeys.Resp.{Value, error, array, push, Values, nil, cons, ok_reply, err_reply}
use postkeys.Handler.Arguments.{bulk, parts, of_list}
use postkeys.Handler.Backend.{Backend, Failure}
use postkeys.Handler.Keys.{command_keys, command_panics}
use postkeys.Server.Client.{
  ClientState, start_transaction, get_queued_commands, discard_transaction,
}

abbrev pub max_exec_retries : ℕ
max_exec_retries = 3

-- `strings.Contains`.
unfoldable pub has_infix : Bytes → Bytes → Bool
has_infix [] sub = has_prefix [] sub
has_infix (c ∷ s) sub = has_prefix (c ∷ s) sub || has_infix s sub

unfoldable pub is_retryable_message : Bytes → Bool
is_retryable_message msg =
    has_infix msg (codes "(SQLSTATE 40P01)") || has_infix msg (codes "(SQLSTATE 40001)")

is_retryable_reply : Value → Bool
is_retryable_reply (error msg) = is_retryable_message msg
is_retryable_reply _ = false

any_retryable : Values → Bool
any_retryable nil = false
any_retryable (cons v vs) = is_retryable_reply v || any_retryable vs

unfoldable pub has_retryable_error : Value → Bool
unfolding is_retryable_reply any_retryable
has_retryable_error (error msg) = is_retryable_message msg
has_retryable_error (array vs) = any_retryable vs
has_retryable_error (push vs) = any_retryable vs
has_retryable_error _ = false

unfoldable pub is_error : Value → Bool
is_error (error msg) = true
is_error _ = false

-- How an attempt ends: with the reply of the transaction, or with another attempt from this state.
pub data Attempt (W : Type 0) : Type 0 where
  done : Value → W → Attempt W
  again : W → Attempt W

unfoldable pub keys_of : List Value → List Bytes
keys_of [] = []
keys_of (head ∷ args) = command_keys (to_upper (bulk head)) args

-- The keys that EXEC locks: those of every queued command.
unfoldable pub exec_keys : List Value → List Bytes
unfolding keys_of
exec_keys [] = []
exec_keys (cmd ∷ cmds) = keys_of (parts cmd) ++ exec_keys cmds

panics_on : List Value → Bool
panics_on [] = false
panics_on (head ∷ args) = command_panics (to_upper (bulk head)) args

-- Whether the search for the keys of some queued command panics, which ends the process; `handle_exec`
-- is what EXEC does where none does.
unfoldable pub exec_panics : List Value → Bool
unfolding panics_on
exec_panics [] = false
exec_panics (cmd ∷ cmds) = panics_on (parts cmd) || exec_panics cmds

reply_to : Option Bytes → Value
reply_to none = ok_reply
reply_to (some text) = err_reply text

unfoldable pub handle_multi : ClientState → Value × ClientState
unfolding reply_to
handle_multi c = let (e, c') = start_transaction c in (reply_to e, c')

unfoldable pub handle_discard : ClientState → Value × ClientState
unfolding reply_to
handle_discard c = let (e, c') = discard_transaction c in (reply_to e, c')

module _ (B : Backend) where
  open B use {World, execute_in_tx, begin_tx, lock_keys, commit, rollback, back_off}

  -- Behind `tx.Commit`; the state of a commit that failed is the one to roll back.
  after_commit : Bool → Value → Option Failure × World → Attempt World
  after_commit can_retry result (none, w) = done result w
  after_commit can_retry result (some f, w) =
      let w' = rollback w in
      if f.retryable && can_retry
      then again w'
      else if is_error result
      then done result w'
      else done (err_reply (codes "transaction commit failed: " ++ f.text)) w'

  after_fn : Bool → Value × World → Attempt World
  after_fn can_retry (result, w) =
      if has_retryable_error result
      then (if can_retry then again (rollback w) else done result (rollback w))
      else after_commit can_retry result (commit w)

  after_lock : Bool → (World → Value × World) → Option Failure × World → Attempt World
  after_lock can_retry fn (none, w) = after_fn can_retry (fn w)
  after_lock can_retry fn (some f, w) =
      let w' = rollback w in
      if f.retryable && can_retry
      then again w'
      else done (err_reply (codes "transaction failed: " ++ f.text)) w'

  after_begin : Bool → List Bytes → (World → Value × World) → Option Bytes × World → Attempt World
  after_begin can_retry keys fn (none, w) = after_lock can_retry fn (lock_keys keys w)
  after_begin can_retry keys fn (some text, w) =
      done (err_reply (codes "transaction start failed: " ++ text)) w

  -- One round of the loop, behind the wait.
  unfoldable pub attempt : Bool → List Bytes → (World → Value × World) → World → Attempt World
  unfolding after_begin after_lock after_fn after_commit is_error
  attempt can_retry keys fn w = after_begin can_retry keys fn (begin_tx w)

  -- Behind an attempt: its reply, or what follows it.
  settle : (World → Value × World) → Attempt World → Value × World
  settle next (done v w) = (v, w)
  settle next (again w) = next w

  after_wait : (World → Value × World) → Option Bytes × World → Value × World
  after_wait next (none, w) = next w
  after_wait next (some text, w) = (err_reply (codes "transaction aborted: " ++ text), w)

  -- The loop, with the number of attempts that may still follow; the last attempt never says `again`.
  run_attempts : ℕ → List Bytes → (World → Value × World) → World → Value × World
  unfolding settle after_wait
  run_attempts zero keys fn w = settle (λ w'. (err_reply [], w')) (attempt false keys fn w)
  run_attempts (suc left) keys fn w =
      settle (λ w'. after_wait (run_attempts left keys fn) (back_off (max_exec_retries - left) w'))
        (attempt true keys fn w)

  unfoldable pub run_tx : List Bytes → (World → Value × World) → World → Value × World
  unfolding run_attempts
  run_tx keys fn w = run_attempts max_exec_retries keys fn w

  unfoldable pub exec_one : ℕ → List Value → World → Value × World
  exec_one version [] w = (err_reply (codes "invalid command format"), w)
  exec_one version (head ∷ args) w = execute_in_tx version (to_upper (bulk head)) args w

  -- The commands one after the other; an error of one does not stop the next.
  unfoldable pub exec_all : ℕ → List Value → World → Values × World
  unfolding exec_one
  exec_all version [] w = (nil, w)
  exec_all version (cmd ∷ cmds) w =
      let (v, w') = exec_one version (parts cmd) w in
      let (vs, w'') = exec_all version cmds w' in (cons v vs, w'')

  unfoldable pub exec_body : ℕ → List Value → World → Value × World
  exec_body version cmds w = let (vs, w') = exec_all version cmds w in (array vs, w')

  -- EXEC: the transaction over the commands that the client queued, with the client behind it.
  unfoldable pub handle_exec : ℕ → ClientState → World → Value × ClientState × World
  unfolding exec_body
  handle_exec version c w =
      let (cmds, c') = get_queued_commands c in
      let (v, w') = run_tx (exec_keys cmds) (exec_body version cmds) w in
      if not c.in_transaction then (err_reply (codes "EXEC without MULTI"), c, w) else (v, c', w')
