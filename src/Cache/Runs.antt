-- ===== src/Cache/Runs.antt =====
-- The cache at concrete entries.
use postkeys.Base.{◌<◌, ◌≤◌, ◌≡◌, ◌⊎◌, refl, none, some, List, [], ◌∷◌, length, arith}
use postkeys.Base.Bytes.{codes, compare_bytes, same_bytes}
use postkeys.Base.Map.{lookup}
use postkeys.Cache.Store.{Cache, get, set, size}
use postkeys.Cache.Store.Bounds.{
  Call, set_call, cleanup_call, delete_call, apply_calls, size-apply_calls,
}
use postkeys.Cache.Store.Expiry.{get-set}
use postkeys.Base.Map.{Map}
use postkeys.Base.Bytes.{Bytes}
use postkeys.Base.{true}
use postkeys.Cache.Cached.{CachedStore, cached_get, cached_set, keep}
use postkeys.Cache.Cached.Race.{cached_get-stale}
use postkeys.Cache.Cached.Remote.{process_notices}
use postkeys.Cache.Cached.Remote.Drops.{
  one_key, several_keys, apply_drops, process_notices-apply_drops,
}
use postkeys.Base.{refl}
use postkeys.Base.{ℕ, ◌+◌}
use postkeys.Cache.Writes.{set_of, rename_of, z_range_store_of}
use postkeys.Cache.Commit.{Inner, new_caching_tx, tx_write, tx_writes, tx_commit, direct_writes}
use postkeys.Cache.Commit.Agreement.{tx_commit-direct_writes, tx_commit-z_range_store}
use postkeys.Cache.Sample.{sample_strings}

abbrev small : Cache
small = record {
  items = (codes "a", record { value = codes "1"; expires_at = 9 }) ∷ [];
  ttl = 5;
  max_size = 2;
}

abbrev calls : List Call
calls =
    set_call 3 (codes "b") (codes "2")
    ∷ (set_call 4 (codes "c") (codes "3") ∷ (cleanup_call 9 ∷ (delete_call (codes "a") ∷ [])))

size-apply_calls_example : size (apply_calls calls small) ≤ 2
unfolding size
size-apply_calls_example = size-apply_calls calls small refl (omega arith)

get-set_example :
    let c' = set 3 (codes "b") (codes "2") small in
    (get 8 (codes "b") c' ≡ some (codes "2"))
    ⊎ ((c' ≡ small) × (0 < 2) × (2 ≤ length small.items) × (lookup (codes "b") small.items ≡ none))
unfolding same_bytes
get-set_example = get-set small 3 8 (codes "b") (codes "b") (codes "2") (omega arith)

abbrev fresh : CachedStore (Map Bytes Bytes)
fresh = record { cache = record { items = []; ttl = 5; max_size = 0 }; world = []; sent = [] }

cached_get-stale_example :
    let written = cached_set sample_strings true (λ key. true) (codes "a") (codes "2") 0 fresh in
    let kept = keep sample_strings true (λ key. true) 3 (codes "a") (codes "1") written.1 in
    (written.0 ≡ some tt)
    × (get 8 (codes "a") written.1.cache ≡ none)
    × (cached_get sample_strings true (λ key. true) 8 9 (codes "a") kept
        ≡ (some (some (codes "1")), kept))
cached_get-stale_example =
    cached_get-stale sample_strings true (λ key. true) 3 8 9 (codes "a") (codes "1") (codes "2") 0
      fresh refl refl refl (omega arith) (omega arith)

process_notices-apply_drops_example :
    let s =
      apply_drops sample_strings
        (λ key. true)
        (one_key (codes "a") ∷ several_keys (codes "b" ∷ codes "c" ∷ []) ∷ [])
        (record { cache = small; world = []; sent = [] }) in
    lookup (codes "a") (process_notices s.sent small).items ≡ lookup (codes "a") s.cache.items
process_notices-apply_drops_example =
    process_notices-apply_drops sample_strings (λ key. true)
      (one_key (codes "a") ∷ several_keys (codes "b" ∷ codes "c" ∷ []) ∷ []) small [] (codes "a")

-- A transaction that never fails.
abbrev steady : Inner
steady = record {
  World = ℕ;
  write = λ op w. (some true, w + 1);
  commit = λ w. (true, w);
  rollback = λ w. 0;
}

tx_commit-direct_writes_example :
    get 4
      (codes "a")
      (tx_commit steady
        (tx_writes steady
          (set_of (codes "b") ∷ rename_of (codes "b") (codes "a") ∷ [])
          (new_caching_tx 0))
        small).1
    ≡ get 4
        (codes "a")
        (direct_writes steady
          (set_of (codes "b") ∷ rename_of (codes "b") (codes "a") ∷ [])
          (0, small)).1
unfolding tx_writes tx_write new_caching_tx
tx_commit-direct_writes_example =
    tx_commit-direct_writes steady (set_of (codes "b") ∷ rename_of (codes "b") (codes "a") ∷ []) 0
      small 4 (codes "a") (refl, (refl, tt)) refl

tx_commit-z_range_store_example :
    get 4
      (codes "a")
      (tx_commit steady (tx_write steady (z_range_store_of (codes "a")) (new_caching_tx 0)) small).1
    ≡ get 4 (codes "a") small
tx_commit-z_range_store_example = tx_commit-z_range_store steady (codes "a") 0 small 4 (codes "a")
