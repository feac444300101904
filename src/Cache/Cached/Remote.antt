-- ===== src/Cache/Cached/Remote.antt =====
-- What the notices do to the cache of another process: `processNotification` of
-- internal/cache/invalidator.go, behind the decoding of the notice.
pub mod Drops
use postkeys.Base.{List, [], ◌∷◌}
use postkeys.Base.Bytes.{Bytes, compare_bytes}
use postkeys.Cache.Store
use postkeys.Cache.Store.{Cache}
use postkeys.Cache.Cached.{Notice, drop_keys, drop_all}

drop_each : List Bytes → Cache → Cache
drop_each [] c = c
drop_each (key ∷ keys) c = drop_each keys (Store.delete_key key c)

unfoldable pub process_notice : Notice → Cache → Cache
unfolding drop_each
process_notice (drop_keys keys) c = drop_each keys c
process_notice drop_all c = Store.flush c

abbrev pub process_notices : List Notice → Cache → Cache
process_notices [] c = c
process_notices (n ∷ ns) c = process_notices ns (process_notice n c)
