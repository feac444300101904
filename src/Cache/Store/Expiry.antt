-- ===== src/Cache/Store/Expiry.antt =====
-- What `get` finds.
use postkeys.Base.{ℕ, ◌+◌, ◌≤◌, ◌<◌, ◌≡◌, ◌⊎◌, refl, none, some, List, [], ◌∷◌, length, arith}
use postkeys.Base.{ltb, if◌then◌else◌, compare_numbers, ◌==◌}
use postkeys.Base.Bytes.{Bytes, compare_bytes}
use postkeys.Base.Map.{Map, lookup, delete, lookup-put, lookup-delete}
use postkeys.Base.Set.{contains}
use postkeys.Cache.Store.{Entry, Cache, get, live, set, delete_all, delete_multi, exists_in}

pub lookup-delete_all :
    (ks : List Bytes) (m : Map Bytes Entry) (j : Bytes)
    → lookup j (delete_all ks m) ≡ (if contains j ks then none else lookup j m)
unfolding delete_all contains
lookup-delete_all [] m j = refl
lookup-delete_all (k ∷ ks) m j =
    ground (arith, lookup-delete_all ks (delete k m) j, lookup-delete k j m)

-- After `delete_multi` nothing is found under the keys, at any time, and everything else as before.
pub get-delete_multi :
    (ks : List Bytes) (c : Cache) (now : ℕ) (j : Bytes)
    → get now j (delete_multi ks c) ≡ (if contains j ks then none else get now j c)
unfolding get delete_multi live
get-delete_multi ks c now j = ground (arith, lookup-delete_all ks c.items j)

-- After `set` the key is either found with the value for as long as the cache's time to live, or the
-- cache has a limit, was full and does not change; other keys are found as before.
pub get-set :
    (c : Cache) (now later : ℕ) (k j v : Bytes)
    → now ≤ later
    → let c' = set now k v c in
      (get later j c'
        ≡ (if k == j then (if ltb (now + c.ttl) later then none else some v) else get later j c))
      ⊎ ((c' ≡ c) × (0 < c.max_size) × (c.max_size ≤ length c.items) × (lookup k c.items ≡ none))
unfolding get set live exists_in
get-set c now later k j v h = ground (
  arith,
  lookup-put k j (record { value = v; expires_at = now + c.ttl }) c.items,
  compare_bytes.same_iff k j,
)
