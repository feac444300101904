-- ===== src/Handler/Dispatch.antt =====
-- `Handle` and `executeCommand` of internal/handler/handler.go: the way of a command to its handler.
use postkeys.Base.{ℕ, ◌||◌, Option, none, some, List, [], ◌∷◌, ◌++◌}
use postkeys.Base.{◌==◌, compare_numbers, if◌then◌else◌}
use postkeys.Base.Bytes.{Bytes, codes, to_upper, compare_bytes}
use postkeys.Resp.{Value}
use postkeys.Resp.{ok_reply, err_reply}
use postkeys.Handler.Arguments.{bulk, parts}
use postkeys.Handler.Backend.{Backend}
use postkeys.Handler.Auth.{auth, hello}
use postkeys.Handler.Connection.{ping, echo, command, cluster, config, select_db, wait}

module _ (password : Bytes) (B : Backend) where
  open B use {World, execute_with_ops, flush_db}

  flushed : Option Bytes × World → Value × World
  flushed (none, w) = (ok_reply, w)
  flushed (some e, w) = (err_reply e, w)

  -- `executeCommand`, for a client with protocol version `version`.
  unfoldable pub execute_command : ℕ → Bytes → List Value → World → Value × World
  unfolding flushed
  execute_command version name args w =
      if name == codes "PING"
      then (ping args, w)
      else if name == codes "ECHO"
      then (echo args, w)
      else if name == codes "QUIT"
      then (ok_reply, w)
      else if name == codes "AUTH"
      then (auth password args, w)
      else if name == codes "HELLO"
      then (hello password args, w)
      else if name == codes "COMMAND"
      then (command args, w)
      else if name == codes "CLUSTER"
      then (cluster args, w)
      else if name == codes "CONFIG"
      then (config args, w)
      else if name == codes "SELECT"
      then (select_db args, w)
      else if name == codes "WAIT"
      then (wait args, w)
      else if name == codes "MULTI" || name == codes "EXEC" || name == codes "DISCARD"
      then (
        err_reply (codes "ERR " ++ (name ++ codes " must be handled with transaction context")),
        w,
      )
      else if name == codes "FLUSHDB" || name == codes "FLUSHALL"
      then flushed (flush_db w)
      else execute_with_ops version name args w

  answer_command : ℕ → List Value → World → Value × World
  answer_command version [] w = (err_reply (codes "invalid command format"), w)
  answer_command version (head ∷ args) w = execute_command version (to_upper (bulk head)) args w

  unfoldable pub handle : ℕ → Value → World → Value × World
  unfolding answer_command
  handle version cmd w = answer_command version (parts cmd) w
