-- ===== src/Cache/Store.antt =====
-- `Cache` of internal/cache/cache.go. A time is a number, and every operation that asks the clock takes
-- its answer. The lock and the goroutine that calls `cleanup` are left out.
pub mod Bounds
pub mod Expiry
use postkeys.Base.{ℕ, ◌+◌, Bool, true, false, not, ◌&&◌, Option, none, some, List, [], ◌∷◌, length}
use postkeys.Base.{ltb, leb, if◌then◌else◌}
use postkeys.Base.Bytes.{Bytes, compare_bytes}
use postkeys.Base.Map.{Map, lookup, put, delete}

pub record Entry : Type 0 where
  pub value : Bytes
  pub expires_at : ℕ

-- `max_size` is 0 for no bound.
pub record Cache : Type 0 where
  pub items : Map Bytes Entry
  pub ttl : ℕ
  pub max_size : ℕ

-- `time.Now().After(e.expiresAt)`.
abbrev pub is_expired : ℕ → Entry → Bool
is_expired now e = ltb e.expires_at now

unfoldable pub live : ℕ → Option Entry → Option Bytes
live now none = none
live now (some e) = if is_expired now e then none else some e.value

unfoldable pub get : ℕ → Bytes → Cache → Option Bytes
unfolding live
get now key c = live now (lookup key c.items)

exists_in : Option Entry → Bool
exists_in none = false
exists_in (some e) = true

-- A cache that is full takes no new key.
unfoldable pub set : ℕ → Bytes → Bytes → Cache → Cache
unfolding exists_in
set now key value c =
    if ltb 0 c.max_size && leb c.max_size (length c.items) && not (exists_in (lookup key c.items))
    then c
    else record c { items = put key (record { value = value; expires_at = now + c.ttl }) c.items }

unfoldable pub delete_key : Bytes → Cache → Cache
delete_key key c = record c { items = delete key c.items }

pub delete_all : List Bytes → Map Bytes Entry → Map Bytes Entry
delete_all [] m = m
delete_all (key ∷ keys) m = delete_all keys (delete key m)

unfoldable pub delete_multi : List Bytes → Cache → Cache
unfolding delete_all
delete_multi keys c = record c { items = delete_all keys c.items }

unfoldable pub flush : Cache → Cache
flush c = record c { items = [] }

unfoldable pub size : Cache → ℕ
size c = length c.items

drop_expired : ℕ → Map Bytes Entry → Map Bytes Entry
drop_expired now [] = []
drop_expired now ((key, e) ∷ m) =
    let rest = drop_expired now m in if is_expired now e then rest else (key, e) ∷ rest

unfoldable pub cleanup : ℕ → Cache → Cache
unfolding drop_expired
cleanup now c = record c { items = drop_expired now c.items }
