-- ===== src/Storage/TableRuns.antt =====
-- Runs of the commands of internal/storage/querier.go on tables with one list.
use mathlib.Core.List.{reverse}
use mathlib.Core.List.Permᴰ
use postkeys.Base.{
  ℕ, ◌+◌, ◌*◌, true, false, ◌≡◌, ◌≢◌, refl, arith, Option, none, some, List, [], ◌∷◌, ◌==◌,
  if◌then◌else◌,
}
use postkeys.Base.Int.{pos, negsuc, ◌+ℤ◌}
use postkeys.Base.Set.{contains}
use postkeys.Base.Bytes.{Bytes, codes, compare_bytes, same_bytes, same_bytes_iff}
use postkeys.Storage.Tables.{
  Table, Columns, KeyType, type_none, type_string, type_hash, type_list, type_set, type_zset,
  type_hyperloglog, Meta, Db, is_live, has_table, get_key_type, live_type, same_type, content,
  IsGone, IsOnlyIn, IsKept,
}
use postkeys.Storage.Keys.{ExpireOptions, rename, del, exists, expire_at, is_live_meta}
use postkeys.Storage.HyperLogLog.{new_sketch}
use postkeys.Storage.HyperLogLog.Merge.{add_all}
use postkeys.Storage.HyperLogLog.Commands.{
  sketch_row, live_sketch, sketch_or_new, sketch_at, is_not_sketch, pf_add,
}
use postkeys.Storage.HyperLogLog.Commands
use postkeys.Storage.HyperLogLog.Commands.Union.{add_add_merge, pf_merge-pf_add}
use postkeys.Storage.Keys.Rename.{rename-content, rename-same_key}
use postkeys.Storage.Keys.Expire.{expire_at-content, allowed, renewed}
use postkeys.Storage.Keys.Delete.{del-exists, IsTyped}
use postkeys.Storage.BitField.{wrap64}
use postkeys.Storage.Strings.{get, incr, string_row, row_expiry}
use postkeys.Storage.Strings.Counter.{get-incr-expired, counted_db}
use postkeys.Storage.Lists.{list_rows, is_other_type}
use postkeys.Storage.Lists.Deque.{items, IsList, Holds}
use postkeys.Storage.Lists.Refinement.{
  ListCommand, lpush, rpush, lpop, rpop, rpoplpush, lrange, ltrim, lset, perform_all, expected_all,
  perform_all-expected_all,
}

-- A key with a list that expires at 100.
abbrev queue : Bytes
queue = codes "queue"

abbrev queue_meta : Meta
queue_meta = record { key_type = type_list; expires_at = some 100 }

abbrev sample_meta : Bytes → Option Meta
sample_meta k = if k == queue then some queue_meta else none

abbrev sample_rows : (t : KeyType) → Table (Columns t)
sample_rows type_none k = []
sample_rows type_string k = []
sample_rows type_hash k = []
sample_rows type_list k =
    if k == queue
    then ((negsuc 0, codes "a"), some 100)
      ∷ ((pos 0, codes "b"), some 100)
      ∷ ((pos 3, codes "c"), some 100)
      ∷ []
    else []
sample_rows type_set k = []
sample_rows type_zset k = []
sample_rows type_hyperloglog k = []

abbrev sample : Db
sample = record { meta = sample_meta; rows = sample_rows }

sample-IsOnlyIn : IsOnlyIn type_list queue sample
unfolding same_type same_bytes
sample-IsOnlyIn type_none e = refl
sample-IsOnlyIn type_string e = refl
sample-IsOnlyIn type_hash e = refl
sample-IsOnlyIn type_list e = cc e
sample-IsOnlyIn type_set e = refl
sample-IsOnlyIn type_zset e = refl
sample-IsOnlyIn type_hyperloglog e = refl

sample-IsTyped : IsTyped sample
unfolding same_type
sample-IsTyped k = ground arith

sample-IsList : IsList 50 queue sample
unfolding is_other_type get_key_type live_type same_type is_live list_rows same_bytes
sample-IsList = (refl, ((refl, (refl, tt)), ((refl, tt), (tt, tt))))

abbrev commands : List ListCommand
commands =
    lpush (codes "x" ∷ codes "y" ∷ [])
    ∷ rpush (codes "z" ∷ [])
    ∷ rpop
    ∷ rpoplpush
    ∷ lset (negsuc 0) (codes "w")
    ∷ lpop
    ∷ ltrim (pos 1) (negsuc 0)
    ∷ lrange (pos 0) (negsuc 0)
    ∷ []

perform_all-expected_all_example :
    ((perform_all 50 queue commands sample).0 ≡ (expected_all commands (items queue sample)).0)
    × Holds 50 queue
        (expected_all commands (items queue sample)).1
        (perform_all 50 queue commands sample).1
perform_all-expected_all_example = perform_all-expected_all 50 queue commands sample sample-IsList

abbrev other_key : Bytes
other_key = codes "other"

abbrev third_key : Bytes
third_key = codes "third"

apart : (a b : Bytes) → (a == b) ≡ false → a ≢ b
apart a b h e = ground (arith, same_bytes_iff a b)

rename-content_example :
    let (answer, after) = rename 50 queue other_key sample in
    (answer ≡ none)
    × ((content other_key after ≡ content queue sample)
        × (IsOnlyIn type_list other_key after
            × (IsGone queue after × IsKept third_key sample after)))
unfolding is_live has_table same_bytes
rename-content_example =
    rename-content 50 queue other_key third_key sample queue_meta refl (refl, refl) sample-IsOnlyIn
      (apart queue other_key refl) (apart third_key queue refl) (apart third_key other_key refl)

rename-same_key_example :
    ((rename 50 queue queue sample).0 ≡ none) × IsGone queue (rename 50 queue queue sample).1
unfolding is_live has_table same_bytes
rename-same_key_example = rename-same_key 50 queue sample queue_meta refl (refl, refl)

abbrev only_greater : ExpireOptions
only_greater = record { nx = false; xx = false; gt = true; lt = false }

expire_at-content_example :
    ((expire_at only_greater 50 queue 200 sample).0 ≡ allowed only_greater (some 100) (some 200))
    × ((content queue (expire_at only_greater 50 queue 200 sample).1 ≡ (
          if allowed only_greater (some 100) (some 200)
          then renewed 200 queue_meta (sample_rows type_list queue)
          else content queue sample))
        × (content third_key (expire_at only_greater 50 queue 200 sample).1
            ≡ content third_key sample))
unfolding is_live has_table same_bytes
expire_at-content_example =
    expire_at-content only_greater 50 queue third_key 200 sample queue_meta refl refl refl
      (refl, (refl, refl)) (apart third_key queue refl)

abbrev named : List Bytes
named = queue ∷ other_key ∷ queue ∷ []

del-exists_example :
    let (count, after) = del reverse 50 named sample in
    (count ≡ exists 50 named sample)
    × ((exists 50 named after ≡ 0)
        × ((k : Bytes)
            → (contains k named ≡ true → is_live_meta 50 (sample_meta k) ≡ true → IsGone k after)
              × (contains k named ≡ false → IsKept k sample after)))
del-exists_example = del-exists reverse Permᴰ.reverse 50 named sample sample-IsTyped

-- A counter whose time is over.
abbrev counter : Bytes
counter = codes "counter"

abbrev counter_rows : (t : KeyType) → Table (Columns t)
counter_rows type_none k = []
counter_rows type_string k = if k == counter then (codes "41", some 20) ∷ [] else []
counter_rows type_hash k = []
counter_rows type_list k = []
counter_rows type_set k = []
counter_rows type_zset k = []
counter_rows type_hyperloglog k = []

abbrev counted : Db
counted = record { meta = λ k. none; rows = counter_rows }

get-incr-expired_example :
    (incr 50 counter (pos 1) counted ≡ some (pos 1, counted_db counter (pos 1) counted))
    × ((get 50 counter (counted_db counter (pos 1) counted) ≡ none)
        × (incr 50 counter (pos 1) (counted_db counter (pos 1) counted)
            ≡ some (pos 1, counted_db counter (pos 1) (counted_db counter (pos 1) counted))))
unfolding wrap64 ◌+ℤ◌ string_row is_live same_bytes
get-incr-expired_example =
    get-incr-expired 50 counter (codes "41") (some 20) (pos 1) counted refl refl

abbrev sum_hash : Bytes → ℕ
sum_hash [] = 7
sum_hash (c ∷ rest) = sum_hash rest * 31 + c

pf_merge-pf_add_example :
    (merged : Db) × ((n : ℕ) × ((added : Db) × ((add_add_merge sum_hash 50 other_key
              (codes "x" ∷ codes "y" ∷ [])
              third_key
              (codes "z" ∷ [])
              sample
            ≡ some merged)
          × ((pf_add sum_hash 50 other_key (codes "x" ∷ codes "y" ∷ codes "z" ∷ []) sample
                ≡ some (n, added))
              × ((sketch_at 50 other_key merged ≡ sketch_at 50 other_key added)
                  × (sketch_at 50 third_key merged
                      ≡ add_all sum_hash (codes "z" ∷ []) new_sketch))))))
unfolding sketch_row Commands.row_expiry is_not_sketch get_key_type live_type same_type is_live
    sketch_at sketch_or_new live_sketch same_bytes
pf_merge-pf_add_example =
    pf_merge-pf_add sum_hash 50 other_key third_key (codes "x" ∷ codes "y" ∷ []) (codes "z" ∷ [])
      sample (apart other_key third_key refl) refl refl refl refl refl
