-- ===== src/Cache/Sample.antt =====
-- A small store of strings: it reads, sets and clears, and refuses the rest.
use postkeys.Base.{false, none, some, []}
use postkeys.Base.Bytes.{Bytes, compare_bytes}
use postkeys.Base.Map.{Map, lookup, put}
use postkeys.Cache.Cached.{Strings}

abbrev pub sample_strings : Strings
sample_strings = record {
  World = Map Bytes Bytes;
  get = λ key w. (some (lookup key w), w);
  set = λ key value ttl w. (some tt, put key value w);
  set_nx = λ key value ttl w. (some false, w);
  incr = λ key delta w. (none, w);
  append = λ key value w. (none, w);
  get_del = λ key w. (none, w);
  get_set = λ key value w. (none, w);
  del = λ keys w. (none, w);
  expire = λ key ttl w. (some false, w);
  rename = λ old new w. (none, w);
  flush_db = λ w. (some tt, []);
}
