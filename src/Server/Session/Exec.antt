-- ===== src/Server/Session/Exec.antt =====
-- A whole transaction on a connection: MULTI, commands, EXEC.
use postkeys.Base.{
  ℕ, ◌++◌, ◌≡◌, refl, Bool, true, false, not, ◌&&◌, ◌||◌, List, [], ◌∷◌, inl, inr, arith,
}
use postkeys.Base.{◌==◌, ap, ◌∙◌}
use postkeys.Base.Bytes.{Bytes, codes, to_upper, compare_bytes, same_bytes}
use postkeys.Resp.{Value, Values, nil, cons, array, simple_string, ok_reply}
use postkeys.Handler.Arguments.{bulk, parts}
use postkeys.Base.Set.{contains}
use postkeys.Handler.Keys.{command_keys}
use postkeys.Handler.Backend.{Backend}
use postkeys.Handler.Transaction.{
  handle_exec, handle_multi, run_tx, exec_body, exec_all, exec_one, exec_keys, keys_of, exec_panics,
}
use postkeys.Server.Client.{
  ClientState, queue_command, start_transaction, get_queued_commands, use_resp3,
}
use postkeys.Server.Client.Transaction.{queue_commands, queued-queue_commands, kept-queue_commands}
use postkeys.Server.Session.{Session, step, gate, serve, stateful}
use postkeys.Server.Session.Cases.{List-cases, step-gate, is_named, step-named}

-- The commands that are not queued in a transaction.
abbrev pub is_immediate : Bytes → Bool
is_immediate name =
    name == codes "AUTH"
    || name == codes "HELLO"
    || name == codes "SUBSCRIBE"
    || name == codes "UNSUBSCRIBE"
    || name == codes "PSUBSCRIBE"
    || name == codes "PUNSUBSCRIBE"
    || name == codes "PUBLISH"
    || name == codes "RESET"
    || name == codes "MULTI"
    || name == codes "EXEC"
    || name == codes "DISCARD"

abbrev pub is_queued_parts : List Value → Bool
is_queued_parts [] = false
is_queued_parts (head ∷ args) = not (is_immediate (to_upper (bulk head)))

abbrev pub all_queued : List Value → Bool
all_queued [] = true
all_queued (cmd ∷ cmds) = is_queued_parts (parts cmd) && all_queued cmds

-- Not a RESP2 client that is subscribed.
abbrev pub is_unrestricted : ClientState → Bool
is_unrestricted c = not (c.in_pubsub_mode && not (use_resp3 c))

-- One of the commands names the key.
abbrev pub names_key : Bytes → List Value → Bool
names_key k [] = false
names_key k (head ∷ args) = contains k (command_keys (to_upper (bulk head)) args)

abbrev pub some_names : Bytes → List Value → Bool
some_names k [] = false
some_names k (cmd ∷ cmds) = names_key k (parts cmd) || some_names k cmds

contains-append :
    (k : Bytes) (xs ys : List Bytes) → contains k (xs ++ ys) ≡ (contains k xs || contains k ys)
unfolding contains
contains-append k [] ys = refl
contains-append k (x ∷ xs) ys = ground (arith, contains-append k xs ys)

contains-keys_of : (k : Bytes) (ps : List Value) → contains k (keys_of ps) ≡ names_key k ps
unfolding keys_of contains
contains-keys_of k [] = refl
contains-keys_of k (head ∷ args) = refl

contains-exec_keys :
    (k : Bytes) (cmds : List Value) → contains k (exec_keys cmds) ≡ some_names k cmds
unfolding exec_keys contains
contains-exec_keys k [] = refl
contains-exec_keys k (cmd ∷ cmds) =
    contains-append k (keys_of (parts cmd)) (exec_keys cmds)
    ∙ ground (arith, contains-keys_of k (parts cmd), contains-exec_keys k cmds)

-- The commands run from the first to the last inside a transaction, each on the state that the one before left.
pub data Ran (B : Backend) (version : ℕ) : B.World → List Value → Values → B.World → Type 0 where
  ended : {w : B.World} → Ran B version w [] nil w
  then_run :
      {w w' : B.World} {cmd head : Value} {args cmds : List Value} {vs : Values}
      → parts cmd ≡ head ∷ args
      → Ran B version (B.execute_in_tx version (to_upper (bulk head)) args w).1 cmds vs w'
      → Ran B version w
          (cmd ∷ cmds)
          (cons (B.execute_in_tx version (to_upper (bulk head)) args w).0 vs)
          w'

module _ (B : Backend) (version : ℕ) where
  exec_all-Ran :
      (cmds : List Value) (w : B.World)
      → all_queued cmds ≡ true
      → Ran B version w cmds (exec_all B version cmds w).0 (exec_all B version cmds w).1
  unfolding exec_all exec_one
  exec_all-Ran [] w q = ended
  exec_all-Ran (cmd ∷ cmds) w q = elim (List-cases (parts cmd)) [
    | inl e ↦ cc (q, ap is_queued_parts e)
    | inr (head, args, e) ↦ rw e (
        then_run e (
          exec_all-Ran cmds (B.execute_in_tx version (to_upper (bulk head)) args w).1
            (ground arith)))
  ]

module _ (password : Bytes) (pubsub : Bool) (info : ClientState → Bytes) (B : Backend) where
  -- EXEC replied and left the store as one transaction did, over the keys and the body that belong to the commands.
  abbrev pub IsTransaction : List Value → Session B.World → List Value × Session B.World → Type 0
  IsTransaction cmds s (replies, after) =
      (keys : List Bytes) × ((body : B.World → Value × B.World) × (((k : Bytes)
            → contains k keys ≡ some_names k cmds)
          × (((w : B.World)
                → (vs : Values) × ((w' : B.World) × ((body w ≡ (array vs, w'))
                      × Ran B s.client.protocol_version w cmds vs w')))
              × ((replies ≡ (run_tx B keys body s.world).0 ∷ [])
                  × (after.world ≡ (run_tx B keys body s.world).1)))))

  -- The connection behind several commands.
  abbrev pub run : List Value → Session B.World → Session B.World
  run [] s = s
  run (cmd ∷ cmds) s = run cmds (step password pubsub info B cmd s).1

  gate-queue :
      (cmd : Value) (name : Bytes) (args : List Value) (s : Session B.World)
      → is_immediate name ≡ false
      → s.authenticated ≡ true
      → s.client.in_transaction ≡ true
      → is_unrestricted s.client ≡ true
      → gate password pubsub info B cmd name args s
        ≡ (simple_string (codes "QUEUED") ∷ [], record s { client = queue_command cmd s.client })
  unfolding gate serve stateful
  gate-queue cmd name args s n a t u = ground arith

  gate-multi :
      (cmd : Value) (args : List Value) (s : Session B.World)
      → s.authenticated ≡ true
      → s.client.in_transaction ≡ false
      → is_unrestricted s.client ≡ true
      → gate password pubsub info B cmd (codes "MULTI") args s ≡ (
        ok_reply ∷ [],
        record s { client = record s.client { in_transaction = true; queued_commands = [] } },
      )
  unfolding gate serve stateful same_bytes handle_multi start_transaction
  gate-multi cmd args s a t u = ground arith

  gate-exec :
      (cmd : Value) (args : List Value) (s : Session B.World)
      → s.authenticated ≡ true
      → s.client.in_transaction ≡ true
      → is_unrestricted s.client ≡ true
      → let (cmds, c) = get_queued_commands s.client in
        let (v, w) =
          run_tx B (exec_keys cmds) (exec_body B s.client.protocol_version cmds) s.world in
        gate password pubsub info B cmd (codes "EXEC") args s
        ≡ (v ∷ [], record s { client = c; world = w })
  unfolding gate serve stateful same_bytes handle_exec
  gate-exec cmd args s a t u = ground arith

  step-queue :
      (cmd : Value) (s : Session B.World)
      → is_queued_parts (parts cmd) ≡ true
      → s.authenticated ≡ true
      → s.client.in_transaction ≡ true
      → is_unrestricted s.client ≡ true
      → (step password pubsub info B cmd s).1 ≡ record s { client = queue_command cmd s.client }
  unfolding queue_command
  step-queue cmd s q a t u = elim (List-cases (parts cmd)) [
    | inl e ↦ cc (q, ap is_queued_parts e)
    | inr (head, args, e) ↦
        let n : is_immediate (to_upper (bulk head)) ≡ false =
          ground (arith, q, ap is_queued_parts e) in
        rw
          (
            step-gate password pubsub info B cmd head args s e,
            gate-queue cmd (to_upper (bulk head)) args s n a t u,
          )
          refl
  ]

  run-queue :
      (cmds : List Value) (s : Session B.World)
      → all_queued cmds ≡ true
      → s.authenticated ≡ true
      → s.client.in_transaction ≡ true
      → is_unrestricted s.client ≡ true
      → run cmds s ≡ record s { client = queue_commands cmds s.client }
  unfolding queue_command use_resp3
  run-queue [] s q a t u = refl
  run-queue (cmd ∷ cmds) s q a t u =
      rw (step-queue cmd s (ground arith) a t u)
        (run-queue cmds (record s { client = queue_command cmd s.client }) (ground arith) a t u)

  -- MULTI, then commands that are queued and on which the search for keys does not panic, then EXEC, on
  -- an authenticated connection that is outside a transaction and is no subscribed RESP2 client: MULTI is
  -- answered OK, nothing runs on the store until EXEC, and EXEC is one transaction, which locks the keys
  -- that some command names and no other, and whose body runs the commands from the first to the last
  -- and replies with the array of their replies. Its reply and its state are those of EXEC, and the
  -- connection is outside a transaction.
  pub multi-queue-exec :
      (m e : Value) (cmds : List Value) (s : Session B.World)
      → is_named (codes "MULTI") (parts m) ≡ true
      → is_named (codes "EXEC") (parts e) ≡ true
      → all_queued cmds ≡ true
      → exec_panics cmds ≡ false
      → s.authenticated ≡ true
      → s.client.in_transaction ≡ false
      → is_unrestricted s.client ≡ true
      → let begun = step password pubsub info B m s in
        let queued = run cmds begun.1 in
        let ended = step password pubsub info B e queued in
        (begun.0 ≡ ok_reply ∷ [])
        × ((queued.world ≡ s.world)
            × ((ended.1.client.in_transaction ≡ false)
                × ((ended.1.client.queued_commands ≡ []) × IsTransaction cmds s ended)))
  unfolding get_queued_commands use_resp3 exec_body
  multi-queue-exec m e cmds s hm he q safe a t u =
      let (margs, me) = step-named password pubsub info B (codes "MULTI") m s hm in
      let opened : Session B.World = record s {
        client = record s.client { in_transaction = true; queued_commands = [] };
      } in
      let begun : step password pubsub info B m s ≡ (ok_reply ∷ [], opened) =
        me ∙ gate-multi m margs s a t u in
      let ran = run-queue cmds opened q a refl u in
      let inside = queued-queue_commands cmds opened.client in
      let kept = kept-queue_commands cmds opened.client in
      let queued : Session B.World = record opened { client = queue_commands cmds opened.client } in
      let (eargs, ee) = step-named password pubsub info B (codes "EXEC") e queued he in
      let ended = ee ∙ gate-exec e eargs queued a inside.1 (rw (kept.0, kept.1) u) in
      let version = s.client.protocol_version in
      rw (begun, ran, ended, inside.0, kept.0)
        (
          refl,
          (
            refl,
            (
              refl,
              (
                refl,
                (
                  exec_keys cmds,
                  (
                    exec_body B version cmds,
                    (
                      λ k. contains-exec_keys k cmds,
                      (
                        λ w. (
                          (exec_all B version cmds w).0,
                          ((exec_all B version cmds w).1, (refl, exec_all-Ran B version cmds w q)),
                        ),
                        (refl, refl),
                      ),
                    ),
                  ),
                ),
              ),
            ),
          ),
        )
