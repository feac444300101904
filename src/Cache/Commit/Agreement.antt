-- ===== src/Cache/Commit/Agreement.antt =====
-- A committed transaction drops from the cache what its writes drop one by one.
use mathlib.Core.Path.{subst}
use postkeys.Base.{
  ℕ, Bool, true, false, ◌||◌, ◌≡◌, refl, sym, ap, ◌∙◌, arith, Option, none, some, List, [], ◌∷◌,
  if◌then◌else◌, All,
}
use postkeys.Base.Bytes.{Bytes, compare_bytes}
use postkeys.Base.Set.{contains, add, contains-add}
use postkeys.Cache.Store.{Cache, get, delete_multi}
use postkeys.Cache.Store.Expiry.{get-delete_multi}
use postkeys.Cache.Writes.{
  Operation, invalidated, marked, set_of, set_nx_of, m_set_of, incr_of, incr_by_float_of, append_of,
  set_range_of, bit_field_of, get_ex_of, get_del_of, get_set_of, del_of, expire_of, expire_at_of,
  persist_of, rename_of, copy_of, set_bit_of, bit_op_of, h_incr_by_of, h_incr_by_float_of,
  h_set_nx_of, l_rem_of, l_trim_of, l_set_of, l_insert_of, r_pop_l_push_of, s_inter_store_of,
  s_union_store_of, s_diff_store_of, z_rem_range_by_score_of, z_rem_range_by_rank_of, z_incr_by_of,
  z_pop_min_of, z_pop_max_of, z_range_store_of, z_union_store_of, z_inter_store_of, pf_add_of,
  pf_merge_of,
}
use postkeys.Cache.Commit.{
  Inner, CachingTx, new_caching_tx, mark, tx_write, tx_writes, tx_commit, direct_write,
  direct_writes, marking, committing, invalidating,
}

contains-mark :
    (keys dirty : List Bytes) (k : Bytes)
    → contains k (mark keys dirty) ≡ (contains k keys || contains k dirty)
unfolding mark contains
contains-mark [] dirty k = refl
contains-mark (key ∷ keys) dirty k =
    ground (arith, contains-mark keys (add key dirty) k, contains-add key k dirty)

-- All writes but ZRANGESTORE, which the transaction does not mark, and ZPOPMIN, which it marks only if a member
-- was taken.
abbrev pub is_agreed : Operation → Bool
is_agreed (z_range_store_of key) = false
is_agreed (z_pop_min_of key) = false
is_agreed op = true

marked-invalidated :
    (op : Operation) (ok : Bool) → is_agreed op ≡ true → marked op ok ≡ invalidated op ok
unfolding marked invalidated
marked-invalidated (set_of k) ok h = refl
marked-invalidated (set_nx_of k) ok h = refl
marked-invalidated (m_set_of k) ok h = refl
marked-invalidated (incr_of k) ok h = refl
marked-invalidated (incr_by_float_of k) ok h = refl
marked-invalidated (append_of k) ok h = refl
marked-invalidated (set_range_of k) ok h = refl
marked-invalidated (bit_field_of k j) ok h = refl
marked-invalidated (get_ex_of k) ok h = refl
marked-invalidated (get_del_of k) ok h = refl
marked-invalidated (get_set_of k) ok h = refl
marked-invalidated (del_of k) ok h = refl
marked-invalidated (expire_of k) ok h = refl
marked-invalidated (expire_at_of k) ok h = refl
marked-invalidated (persist_of k) ok h = refl
marked-invalidated (rename_of k j) ok h = refl
marked-invalidated (copy_of k) ok h = refl
marked-invalidated (set_bit_of k) ok h = refl
marked-invalidated (bit_op_of k) ok h = refl
marked-invalidated (h_incr_by_of k) ok h = refl
marked-invalidated (h_incr_by_float_of k) ok h = refl
marked-invalidated (h_set_nx_of k) ok h = refl
marked-invalidated (l_rem_of k) ok h = refl
marked-invalidated (l_trim_of k) ok h = refl
marked-invalidated (l_set_of k) ok h = refl
marked-invalidated (l_insert_of k) ok h = refl
marked-invalidated (r_pop_l_push_of k j) ok h = refl
marked-invalidated (s_inter_store_of k) ok h = refl
marked-invalidated (s_union_store_of k) ok h = refl
marked-invalidated (s_diff_store_of k) ok h = refl
marked-invalidated (z_rem_range_by_score_of k) ok h = refl
marked-invalidated (z_rem_range_by_rank_of k) ok h = refl
marked-invalidated (z_incr_by_of k) ok h = refl
marked-invalidated (z_pop_min_of k) ok h = cc
marked-invalidated (z_pop_max_of k) ok h = refl
marked-invalidated (z_range_store_of k) ok h = cc
marked-invalidated (z_union_store_of k) ok h = refl
marked-invalidated (z_inter_store_of k) ok h = refl
marked-invalidated (pf_add_of k) ok h = refl
marked-invalidated (pf_merge_of k) ok h = refl

either :
    (a b : Bool) (v : Option Bytes)
    → (if a then none else (if b then none else v)) ≡ (if a || b then none else v)
either true b v = refl
either false b v = refl

module _ (I : Inner) (now : ℕ) (k : Bytes) where
  -- The second cache lacks what the transaction has marked, and agrees with the first elsewhere.
  Lacks : CachingTx I.World → Cache → I.World × Cache → Type 0
  Lacks t c (w, direct) =
      (w ≡ t.world) × (get now k direct ≡ (if contains k t.dirty then none else get now k c))

  Lacks-write :
      (op : Operation) (t : CachingTx I.World) (c direct : Cache)
      → is_agreed op ≡ true
      → Lacks t c (t.world, direct)
      → Lacks (tx_write I op t) c (direct_write I op (t.world, direct))
  unfolding tx_write direct_write Lacks
  Lacks-write op t c direct a h = go (I.write op t.world)
    where
      go :
          (answer : Option Bool × I.World)
          → Lacks (marking I op answer t.dirty) c (invalidating I op answer direct)
      go (none, w) = (refl, h.1)
      go (some ok, w) = (
        refl,
        get-delete_multi (invalidated op ok) direct now k
            ∙ rw (h.1, contains-mark (marked op ok) t.dirty k, marked-invalidated op ok a)
                (either (contains k (invalidated op ok)) (contains k t.dirty) (get now k c)),
      )

  Lacks-writes :
      (ops : List Operation) (t : CachingTx I.World) (c direct : Cache) (w : I.World)
      → All (λ op. is_agreed op ≡ true) ops
      → Lacks t c (w, direct)
      → Lacks (tx_writes I ops t) c (direct_writes I ops (w, direct))
  unfolding tx_writes direct_writes Lacks
  Lacks-writes [] t c direct w a h = h
  Lacks-writes (op ∷ ops) t c direct w a h =
      let next : I.World × Cache = direct_write I op (w, direct) in
      Lacks-writes ops (tx_write I op t) c next.1 next.0 a.1 (
        subst (λ v. Lacks (tx_write I op t) c (direct_write I op (v, direct))) (sym h.0)
          (Lacks-write op t c direct a.0 (refl, h.1)))

  committed :
      (result : Bool × I.World) (dirty : List Bytes) (c : Cache)
      → result.0 ≡ true
      → (committing I result dirty c).1 ≡ delete_multi dirty c
  unfolding committing
  committed (true, w) dirty c h = refl
  committed (false, w) dirty c h = cc

  committed-direct :
      (ops : List Operation) (w : I.World) (c : Cache)
      → All (λ op. is_agreed op ≡ true) ops
      → (I.commit (tx_writes I ops (new_caching_tx w)).world).0 ≡ true
      → get now k (tx_commit I (tx_writes I ops (new_caching_tx w)) c).1
        ≡ get now k (direct_writes I ops (w, c)).1
  unfolding tx_commit new_caching_tx Lacks contains
  committed-direct ops w c a done =
      let t : CachingTx I.World = tx_writes I ops (new_caching_tx w) in
      ap (get now k) (committed (I.commit t.world) t.dirty c done)
      ∙ (get-delete_multi t.dirty c now k
          ∙ sym (Lacks-writes ops (new_caching_tx w) c c w a (refl, refl)).1)

-- Where the commit succeeds, a key is found in the cache behind it just where it is found behind the same writes on
-- the cached store, one by one, if ZRANGESTORE and ZPOPMIN are not among them.
pub tx_commit-direct_writes :
    (I : Inner) (ops : List Operation) (w : I.World) (c : Cache) (now : ℕ) (k : Bytes)
    → All (λ op. is_agreed op ≡ true) ops
    → (I.commit (tx_writes I ops (new_caching_tx w)).world).0 ≡ true
    → get now k (tx_commit I (tx_writes I ops (new_caching_tx w)) c).1
      ≡ get now k (direct_writes I ops (w, c)).1
tx_commit-direct_writes I ops w c now k a done = committed-direct I now k ops w c a done

-- A transaction with a ZRANGESTORE alone leaves the cache as it was, also if its commit succeeds.
pub tx_commit-z_range_store :
    (I : Inner) (key : Bytes) (w : I.World) (c : Cache) (now : ℕ) (k : Bytes)
    → get now k (tx_commit I (tx_write I (z_range_store_of key) (new_caching_tx w)) c).1
      ≡ get now k c
unfolding tx_commit new_caching_tx tx_write marked mark get contains
tx_commit-z_range_store I key w c now k = go (I.write (z_range_store_of key) w)
  where
    settled : (result : Bool × I.World) → get now k (committing I result [] c).1 ≡ get now k c
    settled (true, after) = get-delete_multi [] c now k
    settled (false, after) = refl

    go :
        (answer : Option Bool × I.World)
        → get now k (tx_commit I (marking I (z_range_store_of key) answer []) c).1 ≡ get now k c
    go (none, after) = settled (I.commit after)
    go (some ok, after) = settled (I.commit after)
