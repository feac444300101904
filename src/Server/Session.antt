-- ===== src/Server/Session.antt =====
-- `handleConnection` of internal/server/server.go: what one command does to a connection. The reading
-- and writing of the bytes, tracing, logging and metrics are left out, and so is the watch that cancels a
-- blocking command when its client goes away.
pub mod Cases
pub mod Gate
pub mod Queue
pub mod Exec
pub mod Reset
use postkeys.Base.{ℕ, Bool, true, false, not, ◌&&◌, ◌||◌, Option, none, some, List, [], ◌∷◌, ◌++◌}
use postkeys.Base.{◌==◌, if◌then◌else◌}
use postkeys.Base.Bytes.{Bytes, codes, to_upper, compare_bytes}
use postkeys.Resp.{
  Value, simple_string, error, bulk_string, array, nil, cons, err_reply, err_wrong_args,
}
use postkeys.Pubsub.Hub.{Hub, remove_subscriber}
use postkeys.Handler.Arguments.{bulk, bulks, parts}
use postkeys.Handler.Backend.{Backend}
use postkeys.Handler.Auth.{requires_auth, check_hello_auth, get_hello_protocol_version}
use postkeys.Handler.Dispatch.{handle}
use postkeys.Handler.Transaction.{is_error, handle_multi, handle_exec, handle_discard}
use postkeys.Handler.Client.{handle_client}
use postkeys.Handler.Pubsub.{
  handle_subscribe, handle_psubscribe, handle_unsubscribe, handle_punsubscribe,
}
use postkeys.Handler.Pubsub.{handle_publish}
use postkeys.Server.Client.{
  ClientState, set_protocol_version, use_resp3, discard_transaction, set_name,
}
use postkeys.Server.Client.{queue_command, new_client_state}

-- The connection with the state that it shares with the others: the hub and the store.
pub record Session (W : Type 0) : Type 0 where
  pub authenticated : Bool
  pub client : ClientState
  pub hub : Hub
  pub world : W

is_ok : Value → Bool
is_ok (simple_string s) = s == codes "OK"
is_ok _ = false

abbrev pub open_to_all : Bytes → Bool
open_to_all name =
    name == codes "PING" || name == codes "QUIT" || name == codes "COMMAND" || name == codes "HELLO"

abbrev pub pubsub_restriction : Bytes
pubsub_restriction =
    codes "only (P)SUBSCRIBE / (P)UNSUBSCRIBE / PING / QUIT allowed in this context"

-- `pubsub` says whether the server has a hub; `info` is the text of CLIENT INFO.
module _ (password : Bytes) (pubsub : Bool) (info : ClientState → Bytes) (B : Backend) where
  open B use {World}

  unfoldable pub new_session : ℕ → Hub → World → Session World
  new_session id h w = record {
    authenticated = not (requires_auth password);
    client = new_client_state id;
    hub = h;
    world = w;
  }

  -- `Handle`, with the protocol version of the client.
  unfoldable pub ordinary : Value → Session World → Value × Session World
  ordinary cmd s =
      let (v, w) = handle password B s.client.protocol_version cmd s.world in
      (v, record s { world = w })

  unfoldable pub on_auth : Value → Session World → Value × Session World
  unfolding is_ok
  on_auth cmd s =
      let (v, s') = ordinary cmd s in (v, record s' { authenticated = is_ok v || s.authenticated })

  -- The version is set before the command is looked at, and stays whatever becomes of it.
  unfoldable pub on_hello : Value → List Value → Session World → Value × Session World
  unfolding is_error
  on_hello cmd args s =
      let (has_auth, success) = check_hello_auth password args in
      let c = set_protocol_version (get_hello_protocol_version args) s.client in
      let (v, s') = ordinary cmd (record s { client = c }) in
      (v, record s' { authenticated = has_auth && success && not (is_error v) || s.authenticated })

  subscribed : List Value × Hub × ClientState → Session World → List Value × Session World
  subscribed (vs, h, c) s = (vs, record s { hub = h; client = c })

  one : Value × Session World → List Value × Session World
  one (v, s) = (v ∷ [], s)

  only_pubsub : (List Value × Hub × ClientState) → Session World → List Value × Session World
  unfolding subscribed
  only_pubsub r s =
      if pubsub then subscribed r s else (err_reply (codes "pub/sub is not enabled") ∷ [], s)

  on_publish : List Value → Session World → Value × Session World
  on_publish (channel ∷ (message ∷ rest)) s =
      let (v, w) = handle_publish B s.hub (bulk channel) (bulk message) s.world in
      (v, record s { world = w })
  on_publish _ s = (err_wrong_args (codes "publish"), s)

  first_or_empty : List Value → Bytes
  first_or_empty [] = []
  first_or_empty (a ∷ rest) = bulk a

  -- A RESP2 client that is subscribed.
  unfoldable pub in_pubsub : Value → Bytes → List Value → Session World → Value × Session World
  unfolding first_or_empty
  in_pubsub cmd name args s =
      if name == codes "PING"
      then (
        array (cons (bulk_string (codes "pong")) (cons (bulk_string (first_or_empty args)) nil)),
        s,
      )
      else if name == codes "QUIT"
      then ordinary cmd s
      else (err_reply pubsub_restriction, s)

  discarded : ClientState → ClientState
  discarded c = if c.in_transaction then (discard_transaction c).1 else c

  unfoldable pub on_reset : Session World → Value × Session World
  unfolding discarded
  on_reset s = (
    simple_string (codes "RESET"),
    record {
      authenticated = if requires_auth password then false else s.authenticated;
      client = set_name [] (set_protocol_version 2 (discarded s.client));
      hub = if pubsub then remove_subscriber s.client.id s.hub else s.hub;
      world = s.world;
    },
  )

  on_multi : Session World → Value × Session World
  on_multi s = let (v, c) = handle_multi s.client in (v, record s { client = c })

  on_discard : Session World → Value × Session World
  on_discard s = let (v, c) = handle_discard s.client in (v, record s { client = c })

  on_exec : Session World → Value × Session World
  on_exec s =
      let (v, c, w) = handle_exec B s.client.protocol_version s.client s.world in
      (v, record s { client = c; world = w })

  on_client : Value → Session World → Value × Session World
  on_client cmd s = let (v, c) = handle_client info cmd s.client in (v, record s { client = c })

  on_queue : Value → Session World → Value × Session World
  on_queue cmd s =
      (simple_string (codes "QUEUED"), record s { client = queue_command cmd s.client })

  -- The commands of a client that may use them all, outside of pub/sub.
  unfoldable pub stateful : Value → Bytes → Session World → Value × Session World
  unfolding on_multi on_exec on_discard on_queue on_client
  stateful cmd name s =
      if name == codes "RESET"
      then on_reset s
      else if name == codes "MULTI"
      then on_multi s
      else if name == codes "EXEC"
      then on_exec s
      else if name == codes "DISCARD"
      then on_discard s
      else if s.client.in_transaction
      then on_queue cmd s
      else if name == codes "CLIENT"
      then on_client cmd s
      else ordinary cmd s

  -- A connection that is authenticated.
  unfoldable pub serve : Value → Bytes → List Value → Session World → List Value × Session World
  unfolding one only_pubsub on_publish
  serve cmd name args s =
      if name == codes "SUBSCRIBE"
      then only_pubsub (handle_subscribe s.hub s.client (bulks args)) s
      else if name == codes "UNSUBSCRIBE"
      then only_pubsub (handle_unsubscribe s.hub s.client (bulks args)) s
      else if name == codes "PSUBSCRIBE"
      then only_pubsub (handle_psubscribe s.hub s.client (bulks args)) s
      else if name == codes "PUNSUBSCRIBE"
      then only_pubsub (handle_punsubscribe s.hub s.client (bulks args)) s
      else if name == codes "PUBLISH"
      then (if pubsub
          then one (on_publish args s)
          else (err_reply (codes "pub/sub is not enabled") ∷ [], s))
      else if s.client.in_pubsub_mode && not (use_resp3 s.client)
      then one (in_pubsub cmd name args s)
      else one (stateful cmd name s)

  -- Everything but AUTH and HELLO waits for the authentication.
  unfoldable pub gate : Value → Bytes → List Value → Session World → List Value × Session World
  unfolding one
  gate cmd name args s =
      if name == codes "AUTH"
      then one (on_auth cmd s)
      else if name == codes "HELLO"
      then one (on_hello cmd args s)
      else if not s.authenticated
      then (if open_to_all name
          then one (ordinary cmd s)
          else (error (codes "NOAUTH Authentication required.") ∷ [], s))
      else serve cmd name args s

  dispatch : Value → List Value → Session World → List Value × Session World
  unfolding one
  dispatch cmd [] s = one (ordinary cmd s)
  dispatch cmd (head ∷ args) s = gate cmd (to_upper (bulk head)) args s

  -- The replies to a command, and the connection behind it.
  unfoldable pub step : Value → Session World → List Value × Session World
  unfolding dispatch
  step cmd s = dispatch cmd (parts cmd) s

  -- What `handleConnection` does when the connection ends.
  unfoldable pub close_session : Session World → Session World
  close_session s = record s { hub = if pubsub then remove_subscriber s.client.id s.hub else s.hub }
