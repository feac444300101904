-- ===== src/Cache/Cached.antt =====
-- `CachedStore` of internal/cache/cached_store.go: the cache in front of the store, for the commands on
-- strings and keys, and the notices by which it has the other processes drop a key (`Invalidator` of
-- internal/cache/invalidator.go; the sending itself, which may fail unnoticed, is left out).
-- `Get` reads the store and then sets the cache, with no lock from the one to the other: `keep` is the second half,
-- which other operations may come before, and `cached_get` is `Get` where none does.
pub mod Race
pub mod Remote
use postkeys.Base.{ℕ, Bool, true, false, not, ◌&&◌, Option, none, some, List, [], ◌∷◌, ◌++◌}
use postkeys.Base.{if◌then◌else◌, ◌==◌}
use postkeys.Base.Int.{ℤ}
use postkeys.Base.Bytes.{Bytes, compare_bytes}
use postkeys.Cache.Store
use postkeys.Cache.Store.{Cache}

-- The result of an operation that returns nothing but an error.
abbrev pub Done : Type 0
Done = Unit {0}

-- The operations of `storage.Backend` that are modelled, on the state of the store; `none` is an error.
-- `set` and `set_nx` take a time to live, as does `expire`.
pub record Strings : Type 1 where
  pub World : Type 0
  pub get : Bytes → World → Option (Option Bytes) × World
  pub set : Bytes → Bytes → ℕ → World → Option Done × World
  pub set_nx : Bytes → Bytes → ℕ → World → Option Bool × World
  pub incr : Bytes → ℤ → World → Option ℤ × World
  pub append : Bytes → Bytes → World → Option ℤ × World
  pub get_del : Bytes → World → Option (Option Bytes) × World
  pub get_set : Bytes → Bytes → World → Option (Option Bytes) × World
  pub del : List Bytes → World → Option ℤ × World
  pub expire : Bytes → ℕ → World → Option Bool × World
  pub rename : Bytes → Bytes → World → Option Done × World
  pub flush_db : World → Option Done × World

-- What the other processes are told: keys to drop, or everything.
pub data Notice : Type 0 where
  drop_keys : List Bytes → Notice
  drop_all : Notice

pub record CachedStore (W : Type 0) : Type 0 where
  pub cache : Cache
  pub world : W
  pub sent : List Notice

-- Nothing is sent for no keys.
pub notice_of : List Bytes → List Notice
notice_of [] = []
notice_of (key ∷ keys) = drop_keys (key ∷ keys) ∷ []

-- `distributed` says whether there is an invalidator, and `should_cache` is the policy on keys.
module _ (S : Strings) (distributed : Bool) (should_cache : Bytes → Bool) where
  open S use {World}

  unfoldable pub invalidate_multi : List Bytes → CachedStore World → CachedStore World
  unfolding notice_of
  invalidate_multi keys s = record s {
    cache = Store.delete_multi keys s.cache;
    sent = s.sent ++ (if distributed then notice_of keys else []);
  }

  unfoldable pub invalidate : Bytes → CachedStore World → CachedStore World
  invalidate key s = record s {
    cache = Store.delete_key key s.cache;
    sent = s.sent ++ (if distributed then drop_keys (key ∷ []) ∷ [] else []);
  }

  unfoldable pub flush_all : CachedStore World → CachedStore World
  flush_all s = record s {
    cache = Store.flush s.cache;
    sent = s.sent ++ (if distributed then drop_all ∷ [] else []);
  }

  -- Behind a write: an error leaves the cache as it is.
  pub wrote :
      {R : Type 0} → Bytes → Option R × World → CachedStore World → Option R × CachedStore World
  wrote key (none, w) s = (none, record s { world = w })
  wrote key (some r, w) s = (some r, invalidate key (record s { world = w }))

  -- The write may say that it did nothing.
  pub wrote_if : Bytes → Option Bool × World → CachedStore World → Option Bool × CachedStore World
  wrote_if key (none, w) s = (none, record s { world = w })
  wrote_if key (some true, w) s = (some true, invalidate key (record s { world = w }))
  wrote_if key (some false, w) s = (some false, record s { world = w })

  pub wrote_multi :
      {R : Type 0}
      → List Bytes
      → Option R × World
      → CachedStore World
      → Option R × CachedStore World
  wrote_multi keys (none, w) s = (none, record s { world = w })
  wrote_multi keys (some r, w) s = (some r, invalidate_multi keys (record s { world = w }))

  -- What was read from the store is kept if the policy allows.
  unfoldable pub keep : ℕ → Bytes → Bytes → CachedStore World → CachedStore World
  keep now key v s = record s {
    cache = if should_cache key then Store.set now key v s.cache else s.cache;
  }

  -- Behind the read of the store.
  pub fetched :
      ℕ
      → Bytes
      → Option (Option Bytes) × World
      → CachedStore World
      → Option (Option Bytes) × CachedStore World
  fetched now key (none, w) s = (none, record s { world = w })
  fetched now key (some none, w) s = (some none, record s { world = w })
  fetched now key (some (some v), w) s = (some (some v), keep now key v (record s { world = w }))

  fetch : ℕ → Bytes → CachedStore World → Option (Option Bytes) × CachedStore World
  fetch now key s = fetched now key (S.get key s.world) s

  hit_or_fetch :
      ℕ → Bytes → Option Bytes → CachedStore World → Option (Option Bytes) × CachedStore World
  hit_or_fetch now key none s = fetch now key s
  hit_or_fetch now key (some v) s = (some (some v), s)

  -- `now` and `later` are the clock's answers to the cache's `Get` and `Set`.
  unfoldable pub cached_get :
      ℕ → ℕ → Bytes → CachedStore World → Option (Option Bytes) × CachedStore World
  unfolding fetch fetched keep hit_or_fetch
  cached_get now later key s =
      if should_cache key
      then hit_or_fetch later key (Store.get now key s.cache) s
      else fetch later key s

  unfoldable pub cached_set :
      Bytes → Bytes → ℕ → CachedStore World → Option Done × CachedStore World
  unfolding wrote
  cached_set key value ttl s = wrote key (S.set key value ttl s.world) s

  unfoldable pub cached_set_nx :
      Bytes → Bytes → ℕ → CachedStore World → Option Bool × CachedStore World
  unfolding wrote_if
  cached_set_nx key value ttl s = wrote_if key (S.set_nx key value ttl s.world) s

  unfoldable pub cached_incr : Bytes → ℤ → CachedStore World → Option ℤ × CachedStore World
  unfolding wrote
  cached_incr key delta s = wrote key (S.incr key delta s.world) s

  unfoldable pub cached_append : Bytes → Bytes → CachedStore World → Option ℤ × CachedStore World
  unfolding wrote
  cached_append key value s = wrote key (S.append key value s.world) s

  unfoldable pub cached_get_del :
      Bytes → CachedStore World → Option (Option Bytes) × CachedStore World
  unfolding wrote
  cached_get_del key s = wrote key (S.get_del key s.world) s

  unfoldable pub cached_get_set :
      Bytes → Bytes → CachedStore World → Option (Option Bytes) × CachedStore World
  unfolding wrote
  cached_get_set key value s = wrote key (S.get_set key value s.world) s

  unfoldable pub cached_del : List Bytes → CachedStore World → Option ℤ × CachedStore World
  unfolding wrote_multi
  cached_del keys s = wrote_multi keys (S.del keys s.world) s

  unfoldable pub cached_expire : Bytes → ℕ → CachedStore World → Option Bool × CachedStore World
  unfolding wrote_if
  cached_expire key ttl s = wrote_if key (S.expire key ttl s.world) s

  unfoldable pub cached_rename : Bytes → Bytes → CachedStore World → Option Done × CachedStore World
  unfolding wrote_multi
  cached_rename old new s = wrote_multi (old ∷ (new ∷ [])) (S.rename old new s.world) s

  pub flushed : Option Done × World → CachedStore World → Option Done × CachedStore World
  flushed (none, w) s = (none, record s { world = w })
  flushed (some r, w) s = (some r, flush_all (record s { world = w }))

  unfoldable pub cached_flush_db : CachedStore World → Option Done × CachedStore World
  unfolding flushed
  cached_flush_db s = flushed (S.flush_db s.world) s
