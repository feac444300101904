-- ===== src/Server/Session/Queue.antt =====
-- Transactions on a connection.
use postkeys.Base.{◌≡◌, Bool, true, false, ◌||◌, List, ◌∷◌, arith}
use postkeys.Base.{◌==◌}
use postkeys.Base.Bytes.{Bytes, codes, to_upper, compare_bytes}
use postkeys.Resp.{Value}
use postkeys.Handler.Arguments.{bulk, parts}
use postkeys.Handler.Auth.{get_hello_protocol_version}
use postkeys.Handler.Backend.{Backend}
use postkeys.Handler.Dispatch.{handle}
use postkeys.Server.Client.{ClientState, set_protocol_version}
use postkeys.Server.Session.{
  Session, step, gate, serve, stateful, in_pubsub, ordinary, on_auth, on_hello, open_to_all,
}
use postkeys.Server.Session.{only_pubsub, one, subscribed, on_reset, on_multi, on_discard, on_queue}
use postkeys.Server.Session.Cases.{step-gate}
use postkeys.Server.Session.Gate.{execute_command-harmless}

module _ (password : Bytes) (pubsub : Bool) (info : ClientState → Bytes) (B : Backend) where
  ordinary-world :
      (cmd head : Value) (args : List Value) (s : Session B.World)
      → parts cmd ≡ head ∷ args
      → to_upper (bulk head) == codes "AUTH" || open_to_all (to_upper (bulk head)) ≡ true
      → (ordinary password pubsub info B cmd s).1.world ≡ s.world
  unfolding ordinary handle
  ordinary-world cmd head args s e h = rw e (
      execute_command-harmless password B s.client.protocol_version (to_upper (bulk head)) args
        s.world h)

  stateful-world :
      (cmd : Value) (name : Bytes) (s : Session B.World)
      → s.client.in_transaction ≡ true
      → name == codes "EXEC" ≡ false
      → (stateful password pubsub info B cmd name s).1.world ≡ s.world
  unfolding stateful on_reset on_multi on_discard on_queue
  stateful-world cmd name s t n = ground arith

  in_pubsub-world :
      (cmd head : Value) (args : List Value) (s : Session B.World)
      → parts cmd ≡ head ∷ args
      → (in_pubsub password pubsub info B cmd (to_upper (bulk head)) args s).1.world ≡ s.world
  unfolding in_pubsub
  in_pubsub-world cmd head args s e = ground (arith, ordinary-world cmd head args s e)

  serve-world :
      (cmd head : Value) (args : List Value) (s : Session B.World)
      → parts cmd ≡ head ∷ args
      → s.client.in_transaction ≡ true
      → to_upper (bulk head) == codes "EXEC" ≡ false
      → to_upper (bulk head) == codes "PUBLISH" ≡ false
      → (serve password pubsub info B cmd (to_upper (bulk head)) args s).1.world ≡ s.world
  unfolding serve only_pubsub one subscribed
  serve-world cmd head args s e t n p =
      ground
        (arith, stateful-world cmd (to_upper (bulk head)) s t n, in_pubsub-world cmd head args s e)

  gate-world :
      (cmd head : Value) (args : List Value) (s : Session B.World)
      → parts cmd ≡ head ∷ args
      → s.client.in_transaction ≡ true
      → to_upper (bulk head) == codes "EXEC" ≡ false
      → to_upper (bulk head) == codes "PUBLISH" ≡ false
      → (gate password pubsub info B cmd (to_upper (bulk head)) args s).1.world ≡ s.world
  unfolding gate on_auth on_hello
  gate-world cmd head args s e t n p = ground (
    arith,
    serve-world cmd head args s e t n p,
    ordinary-world cmd head args s e,
    ordinary-world cmd head args
        (record s { client = set_protocol_version (get_hello_protocol_version args) s.client }) e,
  )

  -- In a transaction no command but EXEC and PUBLISH touches the store.
  pub step-in_transaction :
      (cmd head : Value) (args : List Value) (s : Session B.World)
      → parts cmd ≡ head ∷ args
      → s.client.in_transaction ≡ true
      → to_upper (bulk head) == codes "EXEC" ≡ false
      → to_upper (bulk head) == codes "PUBLISH" ≡ false
      → (step password pubsub info B cmd s).1.world ≡ s.world
  step-in_transaction cmd head args s e t n p =
      rw (step-gate password pubsub info B cmd head args s e) (gate-world cmd head args s e t n p)
