-- ===== src/Pubsub/Registry.antt =====
-- One half of the `Hub` of internal/pubsub/hub.go: the two maps that index the same subscriptions by
-- name and by subscriber. The hub has this pair twice, `subscriptions` and `subscribers` for channels
-- and `patterns` and `subPatterns` for patterns, with the same code for each.
-- A `Subscriber` object is named by its id.
pub mod Membership
pub mod Invariant
use postkeys.Base.{ℕ, Option, none, some, List, [], ◌∷◌, length, compare_numbers, if◌then◌else◌}
use postkeys.Base.Bytes.{Bytes, compare_bytes}
use postkeys.Base.Map.{Map, lookup, put, delete}
use postkeys.Base.Set.{members, put_in, take_out}

pub record Registry : Type 0 where
  pub by_name : Map Bytes (List ℕ)
  pub by_id : Map ℕ (List Bytes)

abbrev pub empty : Registry
empty = record { by_name = []; by_id = [] }

-- `if _, exists := h.subscribers[subID]; !exists { h.subscribers[subID] = make(…) }`
open_at : ℕ → Option (List Bytes) → Registry → Registry
open_at id none r = record r { by_id = put id [] r.by_id }
open_at id (some s) r = r

open_id : ℕ → Registry → Registry
unfolding open_at
open_id id r = open_at id (lookup id r.by_id) r

-- One round of the loop of `Subscribe`.
subscribe_one : ℕ → Bytes → Registry → Registry
subscribe_one id name r = record {
  by_name = put_in name id r.by_name;
  by_id = put_in id name r.by_id;
}

-- The loop of `Subscribe`, with the counts that it returns.
subscribe_loop : ℕ → List Bytes → Registry → Registry × List ℕ
subscribe_loop id [] r = (r, [])
subscribe_loop id (name ∷ names) r =
    let r' = subscribe_one id name r in
    let (r'', counts) = subscribe_loop id names r' in (r'', length (members id r'.by_id) ∷ counts)

unfoldable pub subscribe : ℕ → List Bytes → Registry → Registry × List ℕ
unfolding subscribe_loop subscribe_one open_id
subscribe id names r = subscribe_loop id names (open_id id r)

-- One round of the loop of `Unsubscribe`.
unsubscribe_one : ℕ → Bytes → Registry → Registry
unsubscribe_one id name r = record {
  by_name = take_out name id r.by_name;
  by_id = take_out id name r.by_id;
}

unsubscribe_loop : ℕ → List Bytes → Registry → Registry × List ℕ
unsubscribe_loop id [] r = (r, [])
unsubscribe_loop id (name ∷ names) r =
    let r' = unsubscribe_one id name r in
    let (r'', counts) = unsubscribe_loop id names r' in (r'', length (members id r'.by_id) ∷ counts)

-- With no names, all that the subscriber has.
unfoldable pub unsubscribe_names : ℕ → List Bytes → Registry → List Bytes
unsubscribe_names id [] r = members id r.by_id
unsubscribe_names id (name ∷ names) r = name ∷ names

unfoldable pub unsubscribe : ℕ → List Bytes → Registry → Registry × List ℕ
unfolding unsubscribe_names unsubscribe_loop unsubscribe_one
unsubscribe id names r = unsubscribe_loop id (unsubscribe_names id names r) r

-- The loop of `RemoveSubscriber`, over the names that the subscriber has.
drop_from : ℕ → List Bytes → Map Bytes (List ℕ) → Map Bytes (List ℕ)
drop_from id [] m = m
drop_from id (name ∷ names) m = drop_from id names (take_out name id m)

remove_at : ℕ → Option (List Bytes) → Registry → Registry
remove_at id none r = r
remove_at id (some names) r = record {
  by_name = drop_from id names r.by_name;
  by_id = delete id r.by_id;
}

unfoldable pub remove_subscriber : ℕ → Registry → Registry
unfolding drop_from remove_at
remove_subscriber id r = remove_at id (lookup id r.by_id) r
