-- ===== src/Cache/Cached/Race.antt =====
-- A write between the two halves of a `Get`.
use postkeys.Base.{
  ℕ, ◌+◌, ◌≤◌, ◌≡◌, inl, inr, refl, true, Bool, Option, none, some, arith, compare_numbers, ◌∙◌,
}
use postkeys.Base.Bytes.{Bytes, compare_bytes}
use postkeys.Base.Map.{lookup-delete}
use postkeys.Base.Set.{same_refl}
use postkeys.Cache.Store
use postkeys.Cache.Store.Expiry.{get-set}
use postkeys.Cache.Store.{Cache, live}
use postkeys.Cache.Cached.{
  Strings, Done, CachedStore, keep, hit_or_fetch, wrote, invalidate, cached_get, cached_set,
}

get-set_unbounded :
    (now later : ℕ) (key v : Bytes) (c : Cache)
    → c.max_size ≡ 0
    → now ≤ later
    → later ≤ now + c.ttl
    → Store.get later key (Store.set now key v c) ≡ some v
get-set_unbounded now later key v c m past h = elim (get-set c now later key key v past) [
  | inl found ↦ found ∙ ground (arith, same_refl key)
  | inr (same, positive, full, missing) ↦ absurd (omega (arith, m, positive))
]

get-delete_key :
    (later : ℕ) (key : Bytes) (c : Cache) → Store.get later key (Store.delete_key key c) ≡ none
unfolding Store.get Store.delete_key live
get-delete_key later key c = ground (arith, lookup-delete key key c.items, same_refl key)

module _ (S : Strings) (distributed : Bool) (should_cache : Bytes → Bool) where
  wrote-done :
      (key : Bytes) (o : Option Done) (w : S.World) (s : CachedStore S.World)
      → o ≡ some tt
      → wrote S distributed should_cache key (o, w) s
        ≡ (some tt, invalidate S distributed should_cache key (record s { world = w }))
  unfolding wrote
  wrote-done key none w s e = cc e
  wrote-done key (some u) w s e = refl

  -- A `Get` of a key that the policy caches has read a value from the store. Before it sets the cache, a SET of the
  -- key to another value succeeds and has dropped the key from the cache. If the cache has no limit, then
  -- the `Get` puts the old value there, and the next read, if it comes before the cache's time to live is
  -- over, answers the old value without asking the store.
  pub cached_get-stale :
      (now later after : ℕ) (key old new : Bytes) (ttl : ℕ) (s : CachedStore S.World)
      → should_cache key ≡ true
      → (S.set key new ttl s.world).0 ≡ some tt
      → s.cache.max_size ≡ 0
      → now ≤ later
      → later ≤ now + s.cache.ttl
      → let written = cached_set S distributed should_cache key new ttl s in
        let kept = keep S distributed should_cache now key old written.1 in
        (written.0 ≡ some tt)
        × (Store.get later key written.1.cache ≡ none)
        × (cached_get S distributed should_cache later after key kept ≡ (some (some old), kept))
  unfolding cached_set invalidate keep cached_get hit_or_fetch
  cached_get-stale now later after key old new ttl s p ok m past h =
      let dropped : Cache = Store.delete_key key s.cache in
      let bound : dropped.max_size ≡ 0 = unfold Store.delete_key in m in
      let life : later ≤ now + dropped.ttl = unfold Store.delete_key in h in
      rw
        (
          wrote-done key (S.set key new ttl s.world).0 (S.set key new ttl s.world).1 s ok,
          p,
          get-delete_key later key s.cache,
          get-set_unbounded now later key old dropped bound past life,
        )
        (refl, refl, refl)
