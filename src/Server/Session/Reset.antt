-- ===== src/Server/Session/Reset.antt =====
-- RESET.
use postkeys.Base.{ℕ, ◌≡◌, refl, Bool, true, false, not, ◌&&◌, ◌||◌, List, [], ◌∷◌, inl, inr, arith}
use postkeys.Base.{◌==◌, Option-cases, ◌∙◌, compare_numbers}
use postkeys.Base.Bytes.{Bytes, codes, to_upper, compare_bytes, same_bytes}
use postkeys.Base.Map.{lookup, lookup-delete}
use postkeys.Base.Set.{members, same_refl}
use postkeys.Resp.{Value, simple_string, err_reply}
use postkeys.Handler.Arguments.{bulk, parts}
use postkeys.Handler.Auth.{requires_auth}
use postkeys.Handler.Backend.{Backend}
use postkeys.Pubsub.Registry
use postkeys.Pubsub.Registry.{Registry}
use postkeys.Pubsub.Hub.{Hub, remove_subscriber, get_subscription_count}
use postkeys.Server.Client.{
  ClientState, use_resp3, set_protocol_version, set_name, discard_transaction,
}
use postkeys.Server.Session.{
  Session, step, gate, serve, stateful, on_reset, in_pubsub, pubsub_restriction,
}
use postkeys.Server.Session.Cases.{step-gate, is_named, step-named}

members-remove_subscriber :
    (id : ℕ) (r : Registry) → members id (Registry.remove_subscriber id r).by_id ≡ []
unfolding Registry.remove_subscriber members
members-remove_subscriber id r = elim (Option-cases (lookup id r.by_id)) [
  | inl e ↦ ground arith
  | inr (names, e) ↦ ground (arith, lookup-delete id id r.by_id, same_refl id)
]

get_subscription_count-remove_subscriber :
    (id : ℕ) (h : Hub) → get_subscription_count id (remove_subscriber id h) ≡ (0, 0)
unfolding get_subscription_count remove_subscriber
get_subscription_count-remove_subscriber id h =
    rw (members-remove_subscriber id h.channels, members-remove_subscriber id h.patterns) refl

-- The commands that a subscribed RESP2 client may send, AUTH, HELLO and PUBLISH.
abbrev pub is_allowed_in_pubsub : Bytes → Bool
is_allowed_in_pubsub name =
    name == codes "AUTH"
    || name == codes "HELLO"
    || name == codes "SUBSCRIBE"
    || name == codes "UNSUBSCRIBE"
    || name == codes "PSUBSCRIBE"
    || name == codes "PUNSUBSCRIBE"
    || name == codes "PUBLISH"
    || name == codes "PING"
    || name == codes "QUIT"

module _ (password : Bytes) (info : ClientState → Bytes) (B : Backend) where
  gate-restricted :
      (cmd : Value) (name : Bytes) (args : List Value) (s : Session B.World)
      → is_allowed_in_pubsub name ≡ false
      → s.authenticated ≡ true
      → s.client.in_pubsub_mode ≡ true
      → s.client.protocol_version ≡ 2
      → gate password true info B cmd name args s ≡ (err_reply pubsub_restriction ∷ [], s)
  unfolding gate serve in_pubsub use_resp3
  gate-restricted cmd name args s n a m v = ground arith

  gate-reset :
      (cmd : Value) (args : List Value) (s : Session B.World)
      → s.authenticated ≡ true
      → (s.client.in_pubsub_mode && not (use_resp3 s.client)) ≡ false
      → gate password true info B cmd (codes "RESET") args s
        ≡ (simple_string (codes "RESET") ∷ [], (on_reset password true info B s).1)
  unfolding gate serve stateful same_bytes on_reset
  gate-reset cmd args s a u = ground arith

  on_reset-client :
      (s : Session B.World)
      → requires_auth password ≡ false
      → s.authenticated ≡ true
      → s.client.in_pubsub_mode ≡ true
      → let s' = (on_reset password true info B s).1 in
        (s'.authenticated ≡ true)
        × (s'.client.in_pubsub_mode ≡ true)
        × (s'.client.protocol_version ≡ 2)
        × (s'.client.id ≡ s.client.id)
        × (s'.hub ≡ remove_subscriber s.client.id s.hub)
  unfolding on_reset set_protocol_version set_name discard_transaction
  on_reset-client s r a m = ground arith

  -- RESET leaves a subscribed RESP3 client, of a server without a password, in the pub/sub mode although
  -- it takes its subscriptions away and goes back to RESP2: it is subscribed to nothing, and yet a
  -- command behind it is refused unless it is one of pub/sub, AUTH, HELLO, PING or QUIT.
  pub reset-stays_in_pubsub_mode :
      (reset cmd head : Value) (args : List Value) (s : Session B.World)
      → is_named (codes "RESET") (parts reset) ≡ true
      → requires_auth password ≡ false
      → s.authenticated ≡ true
      → s.client.in_pubsub_mode ≡ true
      → use_resp3 s.client ≡ true
      → parts cmd ≡ head ∷ args
      → is_allowed_in_pubsub (to_upper (bulk head)) ≡ false
      → let s' = (step password true info B reset s).1 in
        (get_subscription_count s'.client.id s'.hub ≡ (0, 0))
        × (step password true info B cmd s' ≡ (err_reply pubsub_restriction ∷ [], s'))
  reset-stays_in_pubsub_mode reset cmd head args s n r a m v ec nc =
      let (rargs, e) = step-named password true info B (codes "RESET") reset s n in
      let after = e ∙ gate-reset reset rargs s a (ground arith) in
      let (a', m', v', i', h') = on_reset-client s r a m in
      rw after (
        rw (i', h') (get_subscription_count-remove_subscriber s.client.id s.hub),
        step-gate password true info B cmd head args (on_reset password true info B s).1 ec
            ∙ gate-restricted cmd (to_upper (bulk head)) args (on_reset password true info B s).1 nc
                a' m' v',
      )
