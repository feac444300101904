-- ===== src/Cache/Store/Bounds.antt =====
-- The bound on the number of entries.
use postkeys.Base.{ℕ, suc, ◌+◌, ◌≤◌, ◌≡◌, refl, true, List, [], ◌∷◌, length, arith}
use postkeys.Base.{ltb, if◌then◌else◌, compare_numbers}
use postkeys.Base.Bytes.{Bytes, compare_bytes}
use postkeys.Base.Map.{Map, lookup, put, delete}
use postkeys.Cache.Store.{
  Entry, Cache, set, delete_key, delete_all, delete_multi, flush, size, drop_expired, cleanup,
  exists_in,
}

-- A call on the cache, with the clock's answer where it asks the clock.
pub data Call : Type 0 where
  set_call : ℕ → Bytes → Bytes → Call
  delete_call : Bytes → Call
  delete_multi_call : List Bytes → Call
  flush_call : Call
  cleanup_call : ℕ → Call

abbrev pub apply_call : Call → Cache → Cache
apply_call (set_call now key value) c = set now key value c
apply_call (delete_call key) c = delete_key key c
apply_call (delete_multi_call keys) c = delete_multi keys c
apply_call flush_call c = flush c
apply_call (cleanup_call now) c = cleanup now c

abbrev pub apply_calls : List Call → Cache → Cache
apply_calls [] c = c
apply_calls (call ∷ calls) c = apply_calls calls (apply_call call c)

length-put :
    (k : Bytes) (e : Entry) (m : Map Bytes Entry)
    → length (put k e m) ≡ (if exists_in (lookup k m) then length m else suc (length m))
unfolding put lookup exists_in
length-put k e [] = refl
length-put k e ((i, old) ∷ m) = ground (arith, length-put k e m)

length-delete : (k : Bytes) (m : Map Bytes Entry) → length (delete k m) ≤ length m
unfolding delete
length-delete k [] = omega arith
length-delete k ((i, e) ∷ m) = ground (arith, length-delete k m)

length-delete_all : (ks : List Bytes) (m : Map Bytes Entry) → length (delete_all ks m) ≤ length m
unfolding delete_all
length-delete_all [] m = omega arith
length-delete_all (k ∷ ks) m = omega (arith, length-delete_all ks (delete k m), length-delete k m)

length-drop_expired : (now : ℕ) (m : Map Bytes Entry) → length (drop_expired now m) ≤ length m
unfolding drop_expired
length-drop_expired now [] = omega arith
length-drop_expired now ((i, e) ∷ m) = ground (arith, length-drop_expired now m)

size-apply_call :
    (call : Call) (c : Cache)
    → ltb 0 c.max_size ≡ true
    → size c ≤ c.max_size
    → (size (apply_call call c) ≤ c.max_size) × ((apply_call call c).max_size ≡ c.max_size)
unfolding size set delete_key delete_multi flush cleanup
size-apply_call (set_call now key value) c b h =
    ground (arith, length-put key (record { value = value; expires_at = now + c.ttl }) c.items)
size-apply_call (delete_call key) c b h = (omega (arith, length-delete key c.items), refl)
size-apply_call (delete_multi_call keys) c b h =
    (omega (arith, length-delete_all keys c.items), refl)
size-apply_call flush_call c b h = (omega arith, refl)
size-apply_call (cleanup_call now) c b h = (omega (arith, length-drop_expired now c.items), refl)

-- A cache with a bound that starts within it stays within it, whatever calls come.
pub size-apply_calls :
    (calls : List Call) (c : Cache)
    → ltb 0 c.max_size ≡ true
    → size c ≤ c.max_size
    → size (apply_calls calls c) ≤ c.max_size
size-apply_calls [] c b h = h
size-apply_calls (call ∷ calls) c b h =
    let (within, same) = size-apply_call call c b h in
    ground (arith, size-apply_calls calls (apply_call call c))
