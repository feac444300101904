-- ===== src/Handler/Auth.antt =====
-- Authentication and HELLO, of internal/handler/handler.go.
use postkeys.Base.{ℕ, Bool, true, false, not, ◌&&◌, Option, none, some, List, [], ◌∷◌, ◌++◌}
use postkeys.Base.{leb, ◌==◌, compare_numbers, if◌then◌else◌}
use postkeys.Base.Int.{ℤ, pos, negsuc}
use postkeys.Base.Bytes.{Bytes, codes, parse_int, to_upper, compare_bytes}
use postkeys.Resp.{Value, error, integer, bulk_string, array, nil}
use postkeys.Resp.{ok_reply, err_reply, err_wrong_args}
use postkeys.Handler.Arguments.{bulk, of_list}

-- `password` is empty where none is configured.
module _ (password : Bytes) where
  unfoldable pub requires_auth : Bool
  requires_auth = not (password == [])

  unfoldable pub check_auth : Bytes → Bool
  check_auth provided = password == provided

  -- The options of HELLO as `CheckHelloAuth` reads them: whether there is an AUTH, and its success.
  unfoldable pub scan_hello_auth : List Value → Bool × Bool
  scan_hello_auth [] = (false, false)
  scan_hello_auth (o ∷ []) =
      if to_upper (bulk o) == codes "AUTH" then (true, false) else (false, false)
  scan_hello_auth (o ∷ (x ∷ [])) =
      if to_upper (bulk o) == codes "AUTH" then (true, false) else (false, false)
  scan_hello_auth (o ∷ (x ∷ (y ∷ rest))) =
      let later = scan_hello_auth (y ∷ rest) in
      if to_upper (bulk o) == codes "AUTH"
      then (true, check_auth (bulk y))
      else if to_upper (bulk o) == codes "SETNAME"
      then later
      else (false, false)

  -- The arguments behind a protocol version.
  unfoldable pub behind_version : List Value → List Value
  behind_version [] = []
  behind_version (a ∷ rest) = elim (parse_int (bulk a)) [ none ↦ a ∷ rest | some v ↦ rest ]

  unfoldable pub check_hello_auth : List Value → Bool × Bool
  check_hello_auth args = scan_hello_auth (behind_version args)

  answer_password : Bytes → Value
  answer_password given =
      if check_auth given
      then ok_reply
      else error (codes "WRONGPASS invalid username-password pair")

  -- The password is the only argument, or the second of two.
  answer_auth : List Value → Value
  answer_auth [] = err_wrong_args (codes "auth")
  answer_auth (a ∷ []) = answer_password (bulk a)
  answer_auth (a ∷ (b ∷ [])) = answer_password (bulk b)
  answer_auth (a ∷ (b ∷ (c ∷ rest))) = err_wrong_args (codes "auth")

  unfoldable pub auth : List Value → Value
  unfolding answer_password answer_auth
  auth args =
      if not requires_auth
      then err_reply (
          codes
            "AUTH <password> called without any password configured for the default user. Are you sure your configuration is correct?")
      else answer_auth args

  unknown_option : Value → Value
  unknown_option o = err_reply (codes "ERR Unknown option '" ++ (bulk o ++ codes "' for HELLO"))

  -- The loop over the options of HELLO: the error that it stops at, or none.
  unfoldable pub hello_options : List Value → Option Value
  unfolding unknown_option
  hello_options [] = none
  hello_options (o ∷ []) =
      if to_upper (bulk o) == codes "AUTH"
      then some (err_wrong_args (codes "hello"))
      else if to_upper (bulk o) == codes "SETNAME"
      then some (err_wrong_args (codes "hello"))
      else some (unknown_option o)
  hello_options (o ∷ (x ∷ [])) =
      if to_upper (bulk o) == codes "AUTH"
      then some (err_wrong_args (codes "hello"))
      else if to_upper (bulk o) == codes "SETNAME"
      then none
      else some (unknown_option o)
  hello_options (o ∷ (x ∷ (y ∷ rest))) =
      let behind_auth = hello_options rest in
      let behind_name = hello_options (y ∷ rest) in
      if to_upper (bulk o) == codes "AUTH"
      then (if requires_auth && not (check_auth (bulk y))
          then some (error (codes "WRONGPASS invalid username-password pair"))
          else behind_auth)
      else if to_upper (bulk o) == codes "SETNAME"
      then behind_name
      else some (unknown_option o)

  hello_reply : ℤ → Value
  hello_reply protover = array (
      of_list (
        bulk_string (codes "server")
        ∷ (bulk_string (codes "postkeys")
            ∷ (bulk_string (codes "version")
                ∷ (bulk_string (codes "1.0.0")
                    ∷ (bulk_string (codes "proto")
                        ∷ (integer protover
                            ∷ (bulk_string (codes "id")
                                ∷ (integer (pos 0)
                                    ∷ (bulk_string (codes "mode")
                                        ∷ (bulk_string (codes "standalone")
                                            ∷ (bulk_string (codes "role")
                                                ∷ (bulk_string (codes "master")
                                                    ∷ (bulk_string (codes "modules")
                                                        ∷ (array nil ∷ [])))))))))))))))

  -- The version that is asked for: 2 if the argument is no number.
  hello_version : Option ℤ → Option ℤ
  hello_version none = some (pos 2)
  hello_version (some (negsuc n)) = none
  hello_version (some (pos v)) = if leb 2 v && leb v 3 then some (pos v) else none

  answer_hello : Option ℤ → List Value → Value
  answer_hello none options = err_reply (codes "NOPROTO unsupported protocol version")
  answer_hello (some protover) options = elim (hello_options options) [
    | none ↦ hello_reply protover
    | some e ↦ e
  ]

  unfoldable pub hello : List Value → Value
  unfolding hello_reply hello_version answer_hello
  hello [] = hello_reply (pos 2)
  hello (a ∷ options) = answer_hello (hello_version (parse_int (bulk a))) options

-- The version that the server sets for the connection, whatever becomes of the command.
version_or_two : Option ℤ → ℕ
version_or_two none = 2
version_or_two (some (negsuc n)) = 2
version_or_two (some (pos v)) = if leb 2 v && leb v 3 then v else 2

unfoldable pub get_hello_protocol_version : List Value → ℕ
unfolding version_or_two
get_hello_protocol_version [] = 2
get_hello_protocol_version (a ∷ rest) = version_or_two (parse_int (bulk a))
