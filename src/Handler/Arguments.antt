-- ===== src/Handler/Arguments.antt =====
-- What the handlers read of a command: its parts, and the `Bulk` field of a part, which is empty for
-- a value of another type.
use postkeys.Base.{List, [], ◌∷◌}
use postkeys.Base.Bytes.{Bytes}
use postkeys.Resp.{Value, bulk_string, array, Values, nil, cons}

abbrev pub bulk : Value → Bytes
bulk (bulk_string s) = s
bulk _ = []

abbrev pub bulks : List Value → List Bytes
bulks [] = []
bulks (v ∷ vs) = bulk v ∷ bulks vs

abbrev pub elements : Values → List Value
elements nil = []
elements (cons v vs) = v ∷ elements vs

abbrev pub of_list : List Value → Values
of_list [] = nil
of_list (v ∷ vs) = cons v (of_list vs)

-- The elements of an array; empty for any other value, so that
-- `cmd.Type == Array && len(cmd.Array) > 0` says that the parts are not empty.
abbrev pub parts : Value → List Value
parts (array vs) = elements vs
parts _ = []
