-- ===== src/Server/Runs.antt =====
-- Connections at concrete commands.
use postkeys.Base.{◌≡◌, refl, true, false, [], ◌∷◌, ◌++◌, some, arith}
use postkeys.Base.Bytes.{Bytes, codes, to_upper, upper_byte, same_bytes, compare_bytes}
use postkeys.Base.Set.{contains}
use postkeys.Resp.{Value, ok_reply, err_reply, bulk_string}
use postkeys.Handler.Arguments.{bulks, parts}
use postkeys.Handler.Sample.{Counter, sample_backend, start, request}
use postkeys.Handler.Auth.{requires_auth, auth, check_auth}
use postkeys.Handler.Dispatch.{handle, execute_command}
use postkeys.Handler.Transaction.{exec_panics}
use postkeys.Handler.Keys.{command_panics}
use postkeys.Pubsub.Hub
use postkeys.Pubsub.Hub.{Hub, get_subscription_count}
use postkeys.Server.Client.{
  ClientState, new_client_state, start_transaction, pubsub_message, out_of_band,
}
use postkeys.Server.Client.{enter_pubsub_mode, set_protocol_version, use_resp3}
use postkeys.Server.Client.Push.{pubsub_message-pmessage}
use postkeys.Server.Session.{
  Session, step, gate, on_auth, ordinary, new_session, pubsub_restriction,
}
use postkeys.Server.Session.Gate.{Kept, step-locked, step-password}
use postkeys.Server.Session.Queue.{step-in_transaction}
use postkeys.Server.Session.Exec.{run, IsTransaction, multi-queue-exec}
use postkeys.Server.Session.Reset.{reset-stays_in_pubsub_mode}

abbrev info : ClientState → Bytes
info c = c.name

abbrev secret : Bytes
secret = codes "secret"

abbrev client : ClientState
client = new_client_state 7

abbrev locked : Session Counter
locked = new_session secret true info sample_backend 7 Hub.new_hub start

abbrev unlocked : Session Counter
unlocked = new_session [] true info sample_backend 7 Hub.new_hub start

abbrev set_key : Value
set_key = request (codes "SET" ∷ (codes "k" ∷ (codes "v" ∷ [])))

abbrev incr_key : Value
incr_key = request (codes "incr" ∷ (codes "n" ∷ []))

abbrev subscribed_client : ClientState
subscribed_client = set_protocol_version 3 (enter_pubsub_mode client)

pubsub_message-pmessage_example :
    pubsub_message (codes "pmessage") (codes "n*" ++ 0 ∷ codes "news") (codes "hi") client
    ≡ some
        (out_of_band client (codes "pmessage" ∷ (codes "n*" ∷ (codes "news" ∷ (codes "hi" ∷ [])))))
pubsub_message-pmessage_example =
    pubsub_message-pmessage (codes "n*") (codes "news") (codes "hi") client
      (ground arith, (ground arith, tt))

step-locked_example : Kept locked (step secret true info sample_backend set_key locked).1
unfolding new_session requires_auth same_bytes
step-locked_example = step-locked secret true info sample_backend set_key locked refl

step-password_example :
    contains secret (bulks (parts (request (codes "auth" ∷ (secret ∷ []))))) ≡ true
unfolding new_session requires_auth same_bytes to_upper upper_byte step gate on_auth ordinary handle
    execute_command auth check_auth contains
step-password_example =
    step-password secret true info sample_backend (request (codes "auth" ∷ (secret ∷ []))) locked
      refl refl refl

step-in_transaction_example :
    (step [] true info sample_backend set_key
      (record unlocked { client = (start_transaction client).1 })).1.world
    ≡ start
unfolding new_session start_transaction new_client_state to_upper upper_byte same_bytes
step-in_transaction_example =
    step-in_transaction [] true info sample_backend set_key (bulk_string (codes "SET"))
      (bulk_string (codes "k") ∷ (bulk_string (codes "v") ∷ []))
      (record unlocked { client = (start_transaction client).1 }) refl refl refl refl

multi-queue-exec_example :
    let begun = step [] true info sample_backend (request (codes "multi" ∷ [])) unlocked in
    let queued = run [] true info sample_backend (incr_key ∷ (incr_key ∷ [])) begun.1 in
    let ended = step [] true info sample_backend (request (codes "exec" ∷ [])) queued in
    (begun.0 ≡ ok_reply ∷ [])
    × ((queued.world ≡ start)
        × ((ended.1.client.in_transaction ≡ false)
            × ((ended.1.client.queued_commands ≡ [])
                × IsTransaction [] true info sample_backend
                    (incr_key ∷ (incr_key ∷ []))
                    unlocked
                    ended)))
unfolding new_session new_client_state to_upper upper_byte same_bytes requires_auth exec_panics
    command_panics contains
multi-queue-exec_example =
    multi-queue-exec [] true info sample_backend (request (codes "multi" ∷ []))
      (request (codes "exec" ∷ [])) (incr_key ∷ (incr_key ∷ [])) unlocked refl refl refl refl refl
      refl refl

abbrev subscribed : Session Counter
subscribed = record unlocked { client = subscribed_client }

abbrev reset : Value
reset = request (codes "RESET" ∷ [])

reset-stays_in_pubsub_mode_example :
    let s' = (step [] true info sample_backend reset subscribed).1 in
    (get_subscription_count s'.client.id s'.hub ≡ (0, 0))
    × (step [] true info sample_backend set_key s' ≡ (err_reply pubsub_restriction ∷ [], s'))
unfolding new_session new_client_state to_upper upper_byte same_bytes requires_auth
    set_protocol_version enter_pubsub_mode use_resp3
reset-stays_in_pubsub_mode_example =
    reset-stays_in_pubsub_mode [] info sample_backend reset set_key (bulk_string (codes "SET"))
      (bulk_string (codes "k") ∷ (bulk_string (codes "v") ∷ [])) subscribed refl refl refl refl refl
      refl refl
