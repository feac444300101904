-- ===== src/Cache/Cached/Remote/Drops.antt =====
-- The notices that a process sends drop in the others what it drops itself.
use postkeys.Base.{Bool, ◌≡◌, refl, ◌∙◌, ap, true, none, List, [], ◌∷◌, ◌++◌, arith, if◌then◌else◌}
use postkeys.Base.Bytes.{Bytes, compare_bytes}
use postkeys.Base.Map.{lookup, lookup-delete}
use postkeys.Base.Set.{contains}
use postkeys.Cache.Store
use postkeys.Cache.Store.{Cache, Entry}
use postkeys.Cache.Store.Expiry.{lookup-delete_all}
use postkeys.Cache.Cached.{
  Strings, CachedStore, Notice, drop_keys, drop_all, notice_of, invalidate, invalidate_multi,
  flush_all,
}
use postkeys.Cache.Cached.Remote.{drop_each, process_notice, process_notices}

process_notices-append :
    (ns ms : List Notice) (c : Cache)
    → process_notices (ns ++ ms) c ≡ process_notices ms (process_notices ns c)
process_notices-append [] ms c = refl
process_notices-append (n ∷ ns) ms c = process_notices-append ns ms (process_notice n c)

lookup-drop_each :
    (keys : List Bytes) (c : Cache) (k : Bytes)
    → lookup k (drop_each keys c).items ≡ (if contains k keys then none else lookup k c.items)
unfolding drop_each Store.delete_key contains
lookup-drop_each [] c k = refl
lookup-drop_each (key ∷ keys) c k =
    ground (arith, lookup-drop_each keys (Store.delete_key key c) k, lookup-delete key k c.items)

lookup-notice_of :
    (keys : List Bytes) (c : Cache) (k : Bytes)
    → lookup k (process_notices (notice_of keys) c).items
      ≡ (if contains k keys then none else lookup k c.items)
unfolding notice_of process_notice contains
lookup-notice_of [] c k = refl
lookup-notice_of (key ∷ keys) c k = lookup-drop_each (key ∷ keys) c k

-- What a write has the cache forget.
pub data Drop : Type 0 where
  one_key : Bytes → Drop
  several_keys : List Bytes → Drop
  everything : Drop

module _ (S : Strings) (should_cache : Bytes → Bool) where
  abbrev pub apply_drop : Drop → CachedStore S.World → CachedStore S.World
  apply_drop (one_key key) s = invalidate S true should_cache key s
  apply_drop (several_keys keys) s = invalidate_multi S true should_cache keys s
  apply_drop everything s = flush_all S true should_cache s

  abbrev pub apply_drops : List Drop → CachedStore S.World → CachedStore S.World
  apply_drops [] s = s
  apply_drops (d ∷ ds) s = apply_drops ds (apply_drop d s)

  -- The other cache has what this one has, once it has processed what was sent.
  abbrev IsSame : Cache → CachedStore S.World → Type 0
  IsSame c s = (k : Bytes) → lookup k (process_notices s.sent c).items ≡ lookup k s.cache.items

  apply_drop-IsSame :
      (c : Cache) (d : Drop) (s : CachedStore S.World) → IsSame c s → IsSame c (apply_drop d s)
  unfolding invalidate invalidate_multi flush_all process_notice drop_each Store.delete_key
      Store.delete_multi Store.flush
  apply_drop-IsSame c (one_key key) s h k =
      ap (λ x. lookup k x.items) (process_notices-append s.sent (drop_keys (key ∷ []) ∷ []) c)
      ∙ ground (
        arith,
        h k,
        lookup-delete key k (process_notices s.sent c).items,
        lookup-delete key k s.cache.items,
      )
  apply_drop-IsSame c (several_keys keys) s h k =
      ap (λ x. lookup k x.items) (process_notices-append s.sent (notice_of keys) c)
      ∙ ground (
        arith,
        h k,
        lookup-notice_of keys (process_notices s.sent c) k,
        lookup-delete_all keys s.cache.items k,
      )
  apply_drop-IsSame c everything s h k =
      ap (λ x. lookup k x.items) (process_notices-append s.sent (drop_all ∷ []) c)

  apply_drops-IsSame :
      (c : Cache) (ds : List Drop) (s : CachedStore S.World)
      → IsSame c s
      → IsSame c (apply_drops ds s)
  apply_drops-IsSame c [] s h = h
  apply_drops-IsSame c (d ∷ ds) s h =
      apply_drops-IsSame c ds (apply_drop d s) (apply_drop-IsSame c d s h)

  -- Where there is an invalidator, and whatever the cache of another process holds: once it has processed the
  -- notices of any invalidations of one key, of several keys and of everything, it has under every key
  -- what the cache here would have, had it held the same before.
  pub process_notices-apply_drops :
      (ds : List Drop) (c : Cache) (w : S.World) (k : Bytes)
      → let s = apply_drops ds (record { cache = c; world = w; sent = [] }) in
        lookup k (process_notices s.sent c).items ≡ lookup k s.cache.items
  process_notices-apply_drops ds c w k =
      apply_drops-IsSame c ds (record { cache = c; world = w; sent = [] }) (λ j. refl) k
