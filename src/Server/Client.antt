-- ===== src/Server/Client.antt =====
-- `ClientState` of internal/server/client.go, without its connection, clock and locks.
pub mod Transaction
pub mod Push
use postkeys.Base.{ℕ, Bool, true, false, not, ◌&&◌, Option, none, some, List, [], ◌∷◌, ◌++◌, length}
use postkeys.Base.{leb, ◌==◌, compare_numbers, if◌then◌else◌}
use postkeys.Base.Bytes.{Bytes, codes, compare_bytes}
use postkeys.Resp.{Value, bulk_string, array, push, Values, nil, cons}

pub record ClientState : Type 0 where
  pub id : ℕ
  pub name : Bytes
  pub lib_name : Bytes
  pub lib_version : Bytes
  pub protocol_version : ℕ
  pub in_transaction : Bool
  pub queued_commands : List Value
  pub in_pubsub_mode : Bool

unfoldable pub new_client_state : ℕ → ClientState
new_client_state id = record {
  id = id;
  name = [];
  lib_name = [];
  lib_version = [];
  protocol_version = 2;
  in_transaction = false;
  queued_commands = [];
  in_pubsub_mode = false;
}

unfoldable pub set_protocol_version : ℕ → ClientState → ClientState
set_protocol_version version c =
    if leb 2 version && leb version 3 then record c { protocol_version = version } else c

unfoldable pub use_resp3 : ClientState → Bool
use_resp3 c = leb 3 c.protocol_version

unfoldable pub set_name : Bytes → ClientState → ClientState
set_name name c = record c { name = name }

-- An empty string leaves the field as it is.
unfoldable pub set_lib_info : Bytes → Bytes → ClientState → ClientState
set_lib_info lib_name lib_version c = record c {
  lib_name = if lib_name == [] then c.lib_name else lib_name;
  lib_version = if lib_version == [] then c.lib_version else lib_version;
}

-- The error's text, or none.
unfoldable pub start_transaction : ClientState → Option Bytes × ClientState
start_transaction c =
    if c.in_transaction
    then (some (codes "ERR MULTI calls can not be nested"), c)
    else (none, record c { in_transaction = true; queued_commands = [] })

unfoldable pub queue_command : Value → ClientState → ClientState
queue_command cmd c = record c { queued_commands = c.queued_commands ++ cmd ∷ [] }

unfoldable pub get_queued_commands : ClientState → List Value × ClientState
get_queued_commands c =
    (c.queued_commands, record c { queued_commands = []; in_transaction = false })

unfoldable pub discard_transaction : ClientState → Option Bytes × ClientState
discard_transaction c =
    if not c.in_transaction
    then (some (codes "ERR DISCARD without MULTI"), c)
    else (none, record c { in_transaction = false; queued_commands = [] })

unfoldable pub queue_length : ClientState → ℕ
queue_length c = length c.queued_commands

unfoldable pub enter_pubsub_mode : ClientState → ClientState
enter_pubsub_mode c = record c { in_pubsub_mode = true }

unfoldable pub exit_pubsub_mode : ClientState → ClientState
exit_pubsub_mode c = record c { in_pubsub_mode = false }

-- `strings.SplitN(s, "\x00", 2)`: the strings before and behind the first zero byte.
split_zero : Bytes → Option (Bytes × Bytes)
split_zero [] = none
split_zero (c ∷ s) =
    let later : Option (Bytes × Bytes) = elim (split_zero s) [
      | none ↦ none
      | some (a, b) ↦ some (c ∷ a, b)
    ] in
    if c == 0 then some ([], s) else later

abbrev bulk_values : List Bytes → Values
bulk_values [] = nil
bulk_values (s ∷ rest) = cons (bulk_string s) (bulk_values rest)

-- An array for RESP2, a push for RESP3.
abbrev pub out_of_band : ClientState → List Bytes → Value
out_of_band c strings =
    if use_resp3 c then push (bulk_values strings) else array (bulk_values strings)

-- The value that `SendPubSubMessage` writes; `none` for an error before anything is written.
unfoldable pub pubsub_message : Bytes → Bytes → Bytes → ClientState → Option Value
unfolding split_zero
pubsub_message kind channel payload c =
    if kind == codes "message"
    then some (out_of_band c (codes "message" ∷ (channel ∷ (payload ∷ []))))
    else if kind == codes "pmessage"
    then elim (split_zero channel) [
      | none ↦ none
      | some (pattern, actual) ↦
          some (out_of_band c (codes "pmessage" ∷ (pattern ∷ (actual ∷ (payload ∷ [])))))
    ]
    else none
