-- ===== src/Server/Client/Transaction.antt =====
-- MULTI, the queue, EXEC and DISCARD.
use postkeys.Base.{◌≡◌, refl, true, false, none, List, [], ◌∷◌, ◌++◌, arith}
use postkeys.Base.{append_assoc, append-nil, sym, ◌∙◌}
use postkeys.Resp.{Value}
use postkeys.Server.Client.{ClientState, start_transaction, queue_command, get_queued_commands}

-- Commands that arrive one after the other.
abbrev pub queue_commands : List Value → ClientState → ClientState
queue_commands [] c = c
queue_commands (cmd ∷ cmds) c = queue_commands cmds (queue_command cmd c)

pub queued-queue_commands :
    (cmds : List Value) (c : ClientState)
    → ((queue_commands cmds c).queued_commands ≡ c.queued_commands ++ cmds)
      × ((queue_commands cmds c).in_transaction ≡ c.in_transaction)
unfolding queue_command
queued-queue_commands [] c = (sym (append-nil c.queued_commands), refl)
queued-queue_commands (cmd ∷ cmds) c =
    let (queued, open') = queued-queue_commands cmds (queue_command cmd c) in
    (queued ∙ append_assoc c.queued_commands (cmd ∷ []) cmds, open')

pub kept-queue_commands :
    (cmds : List Value) (c : ClientState)
    → ((queue_commands cmds c).protocol_version ≡ c.protocol_version)
      × ((queue_commands cmds c).in_pubsub_mode ≡ c.in_pubsub_mode)
unfolding queue_command
kept-queue_commands [] c = (refl, refl)
kept-queue_commands (cmd ∷ cmds) c = kept-queue_commands cmds (queue_command cmd c)

-- From outside a transaction: MULTI succeeds, what is queued after it comes out of EXEC in the order in
-- which it went in, and EXEC leaves the client outside a transaction with an empty queue.
pub multi-exec :
    (cmds : List Value) (c : ClientState)
    → c.in_transaction ≡ false
    → let opened = start_transaction c in
      let done = get_queued_commands (queue_commands cmds opened.1) in
      (opened.0 ≡ none)
      × ((queue_commands cmds opened.1).in_transaction ≡ true)
      × (done.0 ≡ cmds)
      × (done.1.in_transaction ≡ false)
      × (done.1.queued_commands ≡ [])
unfolding start_transaction get_queued_commands
multi-exec cmds c h = ground (arith, queued-queue_commands cmds (start_transaction c).1)
