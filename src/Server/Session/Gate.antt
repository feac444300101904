-- ===== src/Server/Session/Gate.antt =====
-- Authentication.
use postkeys.Base.{ℕ, ◌≡◌, refl, Bool, true, false, ◌&&◌, ◌||◌, List, [], ◌∷◌, inl, inr, arith}
use postkeys.Base.{◌==◌, if◌then◌else◌}
use postkeys.Base.Bytes.{Bytes, codes, to_upper, compare_bytes, same_bytes}
use postkeys.Base.Set.{contains}
use postkeys.Resp.{Value, err_reply, err_wrong_args}
use postkeys.Handler.Arguments.{bulk, bulks, parts}
use postkeys.Handler.Backend.{Backend}
use postkeys.Handler.Auth.{
  requires_auth, check_auth, check_hello_auth, scan_hello_auth, behind_version, auth,
  get_hello_protocol_version,
}
use postkeys.Handler.Dispatch.{execute_command, handle}
use postkeys.Server.Client.{ClientState, set_protocol_version}
use postkeys.Server.Session.Cases.{List-cases, step-nothing, step-gate}
use postkeys.Server.Session.{Session, step, gate, ordinary, on_auth, on_hello, open_to_all, is_ok}

module _ (password : Bytes) where
  -- Who gets an OK from AUTH has said the password.
  auth-is_ok :
      (args : List Value)
      → requires_auth password ≡ true
      → is_ok (auth password args) ≡ true
      → contains password (bulks args) ≡ true
  unfolding auth check_auth is_ok err_wrong_args err_reply contains
  auth-is_ok [] r h = ground arith
  auth-is_ok (a ∷ []) r h =
      ground
        (arith, compare_bytes.same_iff password (bulk a), compare_bytes.same_iff (bulk a) password)
  auth-is_ok (a ∷ (b ∷ [])) r h =
      ground
        (arith, compare_bytes.same_iff password (bulk b), compare_bytes.same_iff (bulk b) password)
  auth-is_ok (a ∷ (b ∷ (c ∷ rest))) r h = ground arith

  -- One round of the scan, with the results of its tests.
  contains-third :
      (o x y : Bytes) (rest : List Bytes) (a b is_auth is_name : Bool)
      → (a && b ≡ true → contains password (y ∷ rest) ≡ true)
      → let r : Bool × Bool =
          if is_auth then (true, password == y) else if is_name then (a, b) else (false, false) in
        r.0 && r.1 ≡ true → contains password (o ∷ (x ∷ (y ∷ rest))) ≡ true
  unfolding contains
  contains-third o x y rest a b true is_name later h =
      ground (arith, compare_bytes.same_iff password y, compare_bytes.same_iff y password)
  contains-third o x y rest a b false true later h = ground (arith, later)
  contains-third o x y rest a b false false later h = ground arith

  scan-contains :
      (args : List Value)
      → (scan_hello_auth password args).0 && (scan_hello_auth password args).1 ≡ true
      → contains password (bulks args) ≡ true
  unfolding scan_hello_auth check_auth contains
  scan-contains [] h = cc
  scan-contains (o ∷ []) h = ground arith
  scan-contains (o ∷ (x ∷ [])) h = ground arith
  scan-contains (o ∷ (x ∷ (y ∷ rest))) h =
      contains-third (bulk o) (bulk x) (bulk y) (bulks rest) (scan_hello_auth password (y ∷ rest)).0
        (scan_hello_auth password (y ∷ rest)).1 (to_upper (bulk o) == codes "AUTH")
        (to_upper (bulk o) == codes "SETNAME") (scan-contains (y ∷ rest)) h

  check_hello_auth-contains :
      (args : List Value)
      → (check_hello_auth password args).0 && (check_hello_auth password args).1 ≡ true
      → contains password (bulks args) ≡ true
  unfolding check_hello_auth behind_version contains
  check_hello_auth-contains [] h = scan-contains [] h
  check_hello_auth-contains (a ∷ rest) h =
      ground (arith, scan-contains (a ∷ rest), scan-contains rest)

module _ (password : Bytes) (B : Backend) where
  -- AUTH, HELLO and the commands that are open to all leave the store alone.
  pub execute_command-harmless :
      (version : ℕ) (name : Bytes) (args : List Value) (w : B.World)
      → name == codes "AUTH" || open_to_all name ≡ true
      → (execute_command password B version name args w).1 ≡ w
  unfolding execute_command
  execute_command-harmless version name args w h = ground arith

-- Nothing but the connection's own name and protocol changed.
abbrev pub Kept : {W : Type 0} → Session W → Session W → Type 0
Kept s s' =
    (s'.world ≡ s.world)
    × (s'.hub ≡ s.hub)
    × (s'.client.queued_commands ≡ s.client.queued_commands)
    × (s'.client.in_transaction ≡ s.client.in_transaction)
    × (s'.client.in_pubsub_mode ≡ s.client.in_pubsub_mode)

contains-behind :
    (k : Bytes) (head : Value) (args : List Value)
    → contains k (bulks args) ≡ true
    → contains k (bulks (head ∷ args)) ≡ true
unfolding contains
contains-behind k head args h = ground arith

module _ (password : Bytes) (pubsub : Bool) (info : ClientState → Bytes) (B : Backend) where
  ordinary-Kept :
      (cmd head : Value) (args : List Value) (s : Session B.World)
      → parts cmd ≡ head ∷ args
      → to_upper (bulk head) == codes "AUTH" || open_to_all (to_upper (bulk head)) ≡ true
      → Kept s (ordinary password pubsub info B cmd s).1
  unfolding ordinary handle
  ordinary-Kept cmd head args s e h = (
    rw e (
        execute_command-harmless password B s.client.protocol_version (to_upper (bulk head)) args
          s.world h),
    refl,
    refl,
    refl,
    refl,
  )

  gate-locked :
      (cmd head : Value) (args : List Value) (s : Session B.World)
      → parts cmd ≡ head ∷ args
      → s.authenticated ≡ false
      → Kept s (gate password pubsub info B cmd (to_upper (bulk head)) args s).1
  unfolding gate on_auth on_hello set_protocol_version
  gate-locked cmd head args s e h =
      let renamed = set_protocol_version (get_hello_protocol_version args) s.client in
      ground (
        arith,
        ordinary-Kept cmd head args s e,
        ordinary-Kept cmd head args (record s { client = renamed }) e,
      )

  -- A connection that is not authenticated changes nothing but itself: neither the store nor the
  -- subscriptions, and it cannot queue a command or enter a transaction or the pub/sub mode.
  pub step-locked :
      (cmd : Value) (s : Session B.World)
      → s.authenticated ≡ false
      → Kept s (step password pubsub info B cmd s).1
  step-locked cmd s h = elim (List-cases (parts cmd)) [
    | inl e ↦ rw (step-nothing password pubsub info B cmd s e) (refl, refl, refl, refl, refl)
    | inr (head, args, e) ↦
        rw (step-gate password pubsub info B cmd head args s e) (gate-locked cmd head args s e h)
  ]

  execute-auth :
      (version : ℕ) (name : Bytes) (args : List Value) (w : B.World)
      → name ≡ codes "AUTH"
      → execute_command password B version name args w ≡ (auth password args, w)
  unfolding execute_command same_bytes
  execute-auth version name args w e = rw e refl

  ordinary-auth :
      (cmd head : Value) (args : List Value) (s : Session B.World)
      → parts cmd ≡ head ∷ args
      → to_upper (bulk head) ≡ codes "AUTH"
      → (ordinary password pubsub info B cmd s).0 ≡ auth password args
  unfolding ordinary handle
  ordinary-auth cmd head args s e n =
      rw (e, execute-auth s.client.protocol_version (to_upper (bulk head)) args s.world n) refl

  on_auth-password :
      (cmd head : Value) (args : List Value) (s : Session B.World)
      → parts cmd ≡ head ∷ args
      → to_upper (bulk head) ≡ codes "AUTH"
      → requires_auth password ≡ true
      → s.authenticated ≡ false
      → (on_auth password pubsub info B cmd s).1.authenticated ≡ true
      → contains password (bulks args) ≡ true
  unfolding on_auth
  on_auth-password cmd head args s e n r f h =
      auth-is_ok password args r (ground (arith, ordinary-auth cmd head args s e n))

  gate-password :
      (cmd head : Value) (args : List Value) (s : Session B.World)
      → parts cmd ≡ head ∷ args
      → requires_auth password ≡ true
      → s.authenticated ≡ false
      → (gate password pubsub info B cmd (to_upper (bulk head)) args s).1.authenticated ≡ true
      → contains password (bulks args) ≡ true
  unfolding gate on_hello ordinary
  gate-password cmd head args s e r f h = ground (
    arith,
    on_auth-password cmd head args s e,
    compare_bytes.same_iff (to_upper (bulk head)) (codes "AUTH"),
    check_hello_auth-contains password args,
  )

  -- Where a password is configured, a connection becomes authenticated only by a command that has the
  -- password among its arguments.
  pub step-password :
      (cmd : Value) (s : Session B.World)
      → requires_auth password ≡ true
      → s.authenticated ≡ false
      → (step password pubsub info B cmd s).1.authenticated ≡ true
      → contains password (bulks (parts cmd)) ≡ true
  step-password cmd s r f h = elim (List-cases (parts cmd)) [
    | inl e ↦ cc (step-nothing password pubsub info B cmd s e, f, h)
    | inr (head, args, e) ↦ rw e (
        contains-behind password head args (
          gate-password cmd head args s e r f
            (ground (arith, step-gate password pubsub info B cmd head args s e))))
  ]
