-- ===== src/Resp/Reader/Runs.antt =====
-- The reader and the writer at concrete bytes.
use postkeys.Base.{◌≡◌, true, ◌++◌, arith, ◌⊎◌, ◌<◌, length}
use postkeys.Resp.Reader.{ReadError, err}
use postkeys.Resp.Reader.Termination.{read_total}
use postkeys.Base.Int.{pos}
use postkeys.Base.Bytes.{Bytes, codes}
use postkeys.Resp.{Value, integer, bulk_string, null_bulk, array, nil, cons}
use postkeys.Resp.Writer.{write_value}
use postkeys.Resp.Reader.{ok, read}
use postkeys.Resp.Reader.RoundTrip.{arriving, read-write_value}

abbrev sample : Value
sample = array (cons (bulk_string (codes "GET")) (cons (integer (pos 7)) (cons null_bulk nil)))

read-write_value_example :
    ((write_value sample).1 ≡ true)
    × (read ((write_value sample).0 ++ codes "+OK") ≡ ok (arriving sample, codes "+OK"))
read-write_value_example = read-write_value sample (codes "+OK") (omega arith)

read_total_example :
    ((e : ReadError) × (read (codes "*2 and more") ≡ err e))
    ⊎ ((v : Value) × (rest : Bytes) × (read (codes "*2 and more") ≡ ok (v, rest))
        × (length rest < length (codes "*2 and more")))
read_total_example = read_total (codes "*2 and more")
