-- ===== src/Handler/Backend.antt =====
-- What runs behind the handlers: the PostgreSQL store, and the notification of a message. It is a
-- parameter of the model.
use postkeys.Base.{ℕ, Bool, Option, List}
use postkeys.Base.Bytes.{Bytes}
use postkeys.Resp.{Value}

-- An error of the storage: its text, and whether PostgreSQL says that the transaction can be run again
-- (`IsRetryableError` of internal/storage/storage.go, which asks the driver).
pub record Failure : Type 0 where
  pub text : Bytes
  pub retryable : Bool

-- `World` is the state of the store, its open transaction included. `execute_with_ops` is
-- `ExecuteWithOps` of internal/handler/handler_ops.go for a client with a protocol version: on the store
-- itself, and inside the open transaction. `back_off n` is the wait before attempt `n`, with the text of
-- the context's error if it ends first.
pub record Backend : Type 1 where
  pub World : Type 0
  pub execute_with_ops : ℕ → Bytes → List Value → World → Value × World
  pub execute_in_tx : ℕ → Bytes → List Value → World → Value × World
  pub begin_tx : World → Option Bytes × World
  pub lock_keys : List Bytes → World → Option Failure × World
  pub commit : World → Option Failure × World
  pub rollback : World → World
  pub back_off : ℕ → World → Option Bytes × World
  pub flush_db : World → Option Bytes × World
  pub publish : Bytes → Bytes → World → Option Bytes × World
