-- ===== src/Cache/Writes.antt =====
-- Which keys the writes of `storage.Operations` have dropped from the cache: `CachedStore` of
-- internal/cache/cached_store.go does it behind each, and `CachingTx` of internal/cache/caching_tx.go marks them for
-- the commit. A write stands with the keys that it changes; MSET's come from a map, and those of BITFIELD's
-- operations are their types.
use postkeys.Base.{Bool, true, false, not, ◌&&◌, List, [], ◌∷◌, ◌==◌, if◌then◌else◌}
use postkeys.Base.Bytes.{Bytes, codes, compare_bytes}

pub data Operation : Type 0 where
  set_of : Bytes → Operation
  set_nx_of : Bytes → Operation
  m_set_of : List Bytes → Operation
  incr_of : Bytes → Operation
  incr_by_float_of : Bytes → Operation
  append_of : Bytes → Operation
  set_range_of : Bytes → Operation
  bit_field_of : Bytes → List Bytes → Operation
  get_ex_of : Bytes → Operation
  get_del_of : Bytes → Operation
  get_set_of : Bytes → Operation
  del_of : List Bytes → Operation
  expire_of : Bytes → Operation
  expire_at_of : Bytes → Operation
  persist_of : Bytes → Operation
  rename_of : Bytes → Bytes → Operation
  copy_of : Bytes → Operation
  set_bit_of : Bytes → Operation
  bit_op_of : Bytes → Operation
  h_incr_by_of : Bytes → Operation
  h_incr_by_float_of : Bytes → Operation
  h_set_nx_of : Bytes → Operation
  l_rem_of : Bytes → Operation
  l_trim_of : Bytes → Operation
  l_set_of : Bytes → Operation
  l_insert_of : Bytes → Operation
  r_pop_l_push_of : Bytes → Bytes → Operation
  s_inter_store_of : Bytes → Operation
  s_union_store_of : Bytes → Operation
  s_diff_store_of : Bytes → Operation
  z_rem_range_by_score_of : Bytes → Operation
  z_rem_range_by_rank_of : Bytes → Operation
  z_incr_by_of : Bytes → Operation
  z_pop_min_of : Bytes → Operation
  z_pop_max_of : Bytes → Operation
  z_range_store_of : Bytes → Operation
  z_union_store_of : Bytes → Operation
  z_inter_store_of : Bytes → Operation
  pf_add_of : Bytes → Operation
  pf_merge_of : Bytes → Operation

-- `bitFieldHasWrites`.
unfoldable pub bit_field_has_writes : List Bytes → Bool
bit_field_has_writes [] = false
bit_field_has_writes (op ∷ ops) =
    let rest = bit_field_has_writes ops in
    if not (op == codes "GET") && not (op == codes "OVERFLOW") then true else rest

-- What `CachedStore` drops when the store has answered without an error. `ok` is the answer of a write that says
-- whether it did something; for ZPOPMIN and ZPOPMAX, whether they took a member.
unfoldable pub invalidated : Operation → Bool → List Bytes
invalidated (set_of key) ok = key ∷ []
invalidated (set_nx_of key) ok = if ok then key ∷ [] else []
invalidated (m_set_of keys) ok = keys
invalidated (incr_of key) ok = key ∷ []
invalidated (incr_by_float_of key) ok = key ∷ []
invalidated (append_of key) ok = key ∷ []
invalidated (set_range_of key) ok = key ∷ []
invalidated (bit_field_of key ops) ok = if bit_field_has_writes ops then key ∷ [] else []
invalidated (get_ex_of key) ok = key ∷ []
invalidated (get_del_of key) ok = key ∷ []
invalidated (get_set_of key) ok = key ∷ []
invalidated (del_of keys) ok = keys
invalidated (expire_of key) ok = if ok then key ∷ [] else []
invalidated (expire_at_of key) ok = if ok then key ∷ [] else []
invalidated (persist_of key) ok = key ∷ []
invalidated (rename_of key other) ok = key ∷ other ∷ []
invalidated (copy_of key) ok = if ok then key ∷ [] else []
invalidated (set_bit_of key) ok = key ∷ []
invalidated (bit_op_of key) ok = key ∷ []
invalidated (h_incr_by_of key) ok = key ∷ []
invalidated (h_incr_by_float_of key) ok = key ∷ []
invalidated (h_set_nx_of key) ok = if ok then key ∷ [] else []
invalidated (l_rem_of key) ok = key ∷ []
invalidated (l_trim_of key) ok = key ∷ []
invalidated (l_set_of key) ok = key ∷ []
invalidated (l_insert_of key) ok = key ∷ []
invalidated (r_pop_l_push_of key other) ok = key ∷ other ∷ []
invalidated (s_inter_store_of key) ok = key ∷ []
invalidated (s_union_store_of key) ok = key ∷ []
invalidated (s_diff_store_of key) ok = key ∷ []
invalidated (z_rem_range_by_score_of key) ok = key ∷ []
invalidated (z_rem_range_by_rank_of key) ok = key ∷ []
invalidated (z_incr_by_of key) ok = key ∷ []
invalidated (z_pop_min_of key) ok = key ∷ []
invalidated (z_pop_max_of key) ok = if ok then key ∷ [] else []
invalidated (z_range_store_of key) ok = key ∷ []
invalidated (z_union_store_of key) ok = key ∷ []
invalidated (z_inter_store_of key) ok = key ∷ []
invalidated (pf_add_of key) ok = key ∷ []
invalidated (pf_merge_of key) ok = key ∷ []

-- What `CachingTx` marks.
unfoldable pub marked : Operation → Bool → List Bytes
marked (set_of key) ok = key ∷ []
marked (set_nx_of key) ok = if ok then key ∷ [] else []
marked (m_set_of keys) ok = keys
marked (incr_of key) ok = key ∷ []
marked (incr_by_float_of key) ok = key ∷ []
marked (append_of key) ok = key ∷ []
marked (set_range_of key) ok = key ∷ []
marked (bit_field_of key ops) ok = if bit_field_has_writes ops then key ∷ [] else []
marked (get_ex_of key) ok = key ∷ []
marked (get_del_of key) ok = key ∷ []
marked (get_set_of key) ok = key ∷ []
marked (del_of keys) ok = keys
marked (expire_of key) ok = if ok then key ∷ [] else []
marked (expire_at_of key) ok = if ok then key ∷ [] else []
marked (persist_of key) ok = key ∷ []
marked (rename_of key other) ok = key ∷ other ∷ []
marked (copy_of key) ok = if ok then key ∷ [] else []
marked (set_bit_of key) ok = key ∷ []
marked (bit_op_of key) ok = key ∷ []
marked (h_incr_by_of key) ok = key ∷ []
marked (h_incr_by_float_of key) ok = key ∷ []
marked (h_set_nx_of key) ok = if ok then key ∷ [] else []
marked (l_rem_of key) ok = key ∷ []
marked (l_trim_of key) ok = key ∷ []
marked (l_set_of key) ok = key ∷ []
marked (l_insert_of key) ok = key ∷ []
marked (r_pop_l_push_of key other) ok = key ∷ other ∷ []
marked (s_inter_store_of key) ok = key ∷ []
marked (s_union_store_of key) ok = key ∷ []
marked (s_diff_store_of key) ok = key ∷ []
marked (z_rem_range_by_score_of key) ok = key ∷ []
marked (z_rem_range_by_rank_of key) ok = key ∷ []
marked (z_incr_by_of key) ok = key ∷ []
marked (z_pop_min_of key) ok = if ok then key ∷ [] else []
marked (z_pop_max_of key) ok = if ok then key ∷ [] else []
marked (z_range_store_of key) ok = []
marked (z_union_store_of key) ok = key ∷ []
marked (z_inter_store_of key) ok = key ∷ []
marked (pf_add_of key) ok = key ∷ []
marked (pf_merge_of key) ok = key ∷ []
