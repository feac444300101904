-- ===== src/Handler/Client.antt =====
-- CLIENT, of internal/handler/handler.go.
use postkeys.Base.{List, [], ◌∷◌, ◌++◌, ◌||◌, if◌then◌else◌, ◌==◌}
use postkeys.Base.Int.{pos, negsuc}
use postkeys.Base.Bytes.{Bytes, codes, to_upper, compare_bytes}
use postkeys.Resp.{
  Value, integer, bulk_string, null_bulk, array, nil, ok_reply, err_reply, err_wrong_args,
}
use postkeys.Handler.Arguments.{bulk, parts}
use postkeys.Server.Client.{ClientState, set_name, set_lib_info}

set_info : Bytes → Bytes → ClientState → Value × ClientState
set_info info_type info_value c =
    if info_type == codes "LIB-NAME"
    then (ok_reply, set_lib_info info_value [] c)
    else if info_type == codes "LIB-VER"
    then (ok_reply, set_lib_info [] info_value c)
    else (err_reply (codes "ERR Unknown argument for CLIENT SETINFO"), c)

client_setinfo : List Value → ClientState → Value × ClientState
client_setinfo (a ∷ (b ∷ rest)) c = set_info (to_upper (bulk a)) (bulk b) c
client_setinfo _ c = (err_wrong_args (codes "client setinfo"), c)

client_setname : List Value → ClientState → Value × ClientState
client_setname (a ∷ []) c = (ok_reply, set_name (bulk a) c)
client_setname _ c = (err_wrong_args (codes "client setname"), c)

client_reply : List Value → Value
client_reply (a ∷ []) = ok_reply
client_reply _ = err_wrong_args (codes "client reply")

-- `info` is the text of `GetInfo`, which tells the address and the age of the connection.
module _ (info : ClientState → Bytes) where
  unfoldable pub execute_client_command : Bytes → List Value → ClientState → Value × ClientState
  unfolding client_setinfo set_info client_setname client_reply
  execute_client_command sub args c =
      if sub == codes "ID"
      then (integer (pos c.id), c)
      else if sub == codes "GETNAME"
      then ((if c.name == [] then null_bulk else bulk_string c.name), c)
      else if sub == codes "SETNAME"
      then client_setname args c
      else if sub == codes "SETINFO"
      then client_setinfo args c
      else if sub == codes "INFO"
      then (bulk_string (info c), c)
      else if sub == codes "LIST"
      then (bulk_string (info c ++ 10 ∷ []), c)
      else if sub == codes "TRACKINGINFO"
      then (array nil, c)
      else if sub == codes "CACHING"
      then (ok_reply, c)
      else if sub == codes "GETREDIR"
      then (integer (negsuc 0), c)
      else if sub == codes "UNPAUSE" || sub == codes "PAUSE"
      then (ok_reply, c)
      else if sub == codes "NO-EVICT" || sub == codes "NO-TOUCH"
      then (ok_reply, c)
      else if sub == codes "REPLY"
      then (client_reply args, c)
      else (
        err_reply (
            codes "ERR Unknown subcommand or wrong number of arguments for '"
            ++ (sub ++ codes "'")),
        c,
      )

  client_parts : List Value → ClientState → Value × ClientState
  client_parts (head ∷ (sub ∷ args)) c = execute_client_command (to_upper (bulk sub)) args c
  client_parts _ c = (err_wrong_args (codes "client"), c)

  unfoldable pub handle_client : Value → ClientState → Value × ClientState
  unfolding client_parts
  handle_client cmd c = client_parts (parts cmd) c
