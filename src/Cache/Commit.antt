-- ===== src/Cache/Commit.antt =====
-- `CachingTx` of internal/cache/caching_tx.go: the transaction of a cached store, which drops from the cache what
-- it has written once the commit has succeeded.
pub mod Agreement
use postkeys.Base.{ℕ, Bool, true, false, Option, none, some, List, [], ◌∷◌, ◌++◌, if◌then◌else◌}
use postkeys.Base.Bytes.{Bytes, compare_bytes}
use postkeys.Base.Set.{add}
use postkeys.Cache.Store.{Cache, delete_multi}
use postkeys.Cache.Writes.{Operation, invalidated, marked}

-- The transaction of the store: what it answers to a write, `none` for an error, and whether the commit succeeds.
pub record Inner : Type 1 where
  pub World : Type 0
  pub write : Operation → World → Option Bool × World
  pub commit : World → Bool × World
  pub rollback : World → World

pub record CachingTx (W : Type 0) : Type 0 where
  pub world : W
  pub dirty : List Bytes

unfoldable pub new_caching_tx : {W : Type 0} → W → CachingTx W
new_caching_tx w = record { world = w; dirty = [] }

-- The keys go into a set.
unfoldable pub mark : List Bytes → List Bytes → List Bytes
mark [] dirty = dirty
mark (key ∷ keys) dirty = mark keys (add key dirty)

module _ (I : Inner) where
  open I use {World}

  marking : Operation → Option Bool × World → List Bytes → CachingTx World
  marking op (none, w) dirty = record { world = w; dirty = dirty }
  marking op (some ok, w) dirty = record { world = w; dirty = mark (marked op ok) dirty }

  unfoldable pub tx_write : Operation → CachingTx World → CachingTx World
  unfolding marking
  tx_write op t = marking op (I.write op t.world) t.dirty

  unfoldable pub tx_writes : List Operation → CachingTx World → CachingTx World
  tx_writes [] t = t
  tx_writes (op ∷ ops) t = tx_writes ops (tx_write op t)

  -- A commit that failed, and a rollback, leave the cache.
  committing : Bool × World → List Bytes → Cache → World × Cache
  committing (true, w) dirty c = (w, delete_multi dirty c)
  committing (false, w) dirty c = (w, c)

  unfoldable pub tx_commit : CachingTx World → Cache → World × Cache
  unfolding committing
  tx_commit t c = committing (I.commit t.world) t.dirty c

  unfoldable pub tx_rollback : CachingTx World → Cache → CachingTx World × Cache
  tx_rollback t c = (record { world = I.rollback t.world; dirty = [] }, c)

  -- The same write on the cached store, with what the store answers to it.
  invalidating : Operation → Option Bool × World → Cache → World × Cache
  invalidating op (none, w) c = (w, c)
  invalidating op (some ok, w) c = (w, delete_multi (invalidated op ok) c)

  unfoldable pub direct_write : Operation → World × Cache → World × Cache
  unfolding invalidating
  direct_write op (w, c) = invalidating op (I.write op w) c

  unfoldable pub direct_writes : List Operation → World × Cache → World × Cache
  direct_writes [] s = s
  direct_writes (op ∷ ops) s = direct_writes ops (direct_write op s)
