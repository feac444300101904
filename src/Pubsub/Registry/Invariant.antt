-- ===== src/Pubsub/Registry/Invariant.antt =====
-- The invariant of the two indexes, over any sequence of operations.
use postkeys.Base.{ℕ, ◌≡◌, refl, ◌==◌, compare_numbers, List, [], ◌∷◌, arith}
use postkeys.Base.{Option, none, some, Bool-cases, inl, inr}
use postkeys.Base.Bytes.{Bytes, compare_bytes}
use postkeys.Base.Map.{Map, lookup, put, delete}
use postkeys.Base.Set.{members, take_out, contains, AllNodup, NoEmptySet, AllNodup-put_in}
use postkeys.Base.Set.{
  AllNodup-take_out, NoEmptySet-put_in, NoEmptySet-take_out, members-delete, members-put, has,
  NodupKeys,
}
use postkeys.Base.Set.{NodupKeys-put_in, NodupKeys-take_out}
use postkeys.Base.Map.{keys}
use postkeys.Pubsub.Registry.{
  Registry, empty, open_id, open_at, remove_at, subscribe_one, subscribe_loop, subscribe,
}
use postkeys.Pubsub.Registry.{unsubscribe_one, unsubscribe_loop, unsubscribe_names, unsubscribe}
use postkeys.Pubsub.Registry.{drop_from, remove_subscriber}
use postkeys.Pubsub.Registry.Membership.{is_member, is_listed, subscribe_lem, unsubscribe_lem}
use postkeys.Pubsub.Registry.Membership.{remove_subscriber_lem}

-- The indexes agree; no name is kept with nobody under it; and no set repeats an element, so that
-- the lengths that the operations return are numbers of subscriptions.
pub record IsValid (r : Registry) : Type 0 where
  pub agree : (name : Bytes) (id : ℕ) → is_member r name id ≡ is_listed r name id
  pub no_empty_name : NoEmptySet r.by_name
  pub subscribers_once : AllNodup r.by_name
  pub names_once : AllNodup r.by_id
  pub keys_once : NodupKeys r.by_name

-- What the indexes keep whatever the other index holds.
record IsTidy (r : Registry) : Type 0 where
  no_empty : NoEmptySet r.by_name
  once : AllNodup r.by_name
  once' : AllNodup r.by_id
  keys_once : NodupKeys r.by_name

-- An empty set is free of repetitions, and one in place of it too.
AllNodup-insert_empty : (id : ℕ) (m : Map ℕ (List Bytes)) → AllNodup m → AllNodup (put id [] m)
AllNodup-insert_empty id m h j = elim (Bool-cases (id == j)) [
  | inl p ↦ rw (members-put, p) tt
  | inr p ↦ rw (members-put, p) (h j)
]

AllNodup-delete : (id : ℕ) (m : Map ℕ (List Bytes)) → AllNodup m → AllNodup (delete id m)
AllNodup-delete id m h j = elim (Bool-cases (id == j)) [
  | inl p ↦ rw (members-delete, p) tt
  | inr p ↦ rw (members-delete, p) (h j)
]

open_at-IsTidy :
    (id : ℕ) (o : Option (List Bytes)) (r : Registry) → IsTidy r → IsTidy (open_at id o r)
unfolding open_at
open_at-IsTidy id none r h = record {
  no_empty = h.no_empty;
  once = h.once;
  once' = AllNodup-insert_empty id r.by_id h.once';
  keys_once = h.keys_once;
}
open_at-IsTidy id (some s) r h = h

subscribe_loop-IsTidy :
    (id : ℕ) (names : List Bytes) (r : Registry) → IsTidy r → IsTidy (subscribe_loop id names r).0
unfolding subscribe_loop subscribe_one
subscribe_loop-IsTidy id [] r h = h
subscribe_loop-IsTidy id (n ∷ names) r h =
    subscribe_loop-IsTidy id names (subscribe_one id n r) (record {
      no_empty = NoEmptySet-put_in n id r.by_name h.no_empty;
      once = AllNodup-put_in n id r.by_name h.once;
      once' = AllNodup-put_in id n r.by_id h.once';
      keys_once = NodupKeys-put_in n id r.by_name h.keys_once;
    })

unsubscribe_loop-IsTidy :
    (id : ℕ) (names : List Bytes) (r : Registry) → IsTidy r → IsTidy (unsubscribe_loop id names r).0
unfolding unsubscribe_loop unsubscribe_one
unsubscribe_loop-IsTidy id [] r h = h
unsubscribe_loop-IsTidy id (n ∷ names) r h =
    unsubscribe_loop-IsTidy id names (unsubscribe_one id n r) (record {
      no_empty = NoEmptySet-take_out n id r.by_name h.no_empty;
      once = AllNodup-take_out n id r.by_name h.once;
      once' = AllNodup-take_out id n r.by_id h.once';
      keys_once = NodupKeys-take_out n id r.by_name h.keys_once;
    })

drop_from-keeps :
    (id : ℕ) (names : List Bytes) (m : Map Bytes (List ℕ))
    → NoEmptySet m × AllNodup m × NodupKeys m
    → NoEmptySet (drop_from id names m)
      × AllNodup (drop_from id names m)
      × NodupKeys (drop_from id names m)
unfolding drop_from
drop_from-keeps id [] m h = h
drop_from-keeps id (n ∷ names) m h =
    drop_from-keeps id names (take_out n id m)
      (NoEmptySet-take_out n id m h.0, AllNodup-take_out n id m h.1, NodupKeys-take_out n id m h.2)

remove_at-IsTidy :
    (id : ℕ) (o : Option (List Bytes)) (r : Registry) → IsTidy r → IsTidy (remove_at id o r)
unfolding remove_at
remove_at-IsTidy id none r h = h
remove_at-IsTidy id (some names) r h =
    let (kept, kept', kept'') =
      drop_from-keeps id names r.by_name (h.no_empty, h.once, h.keys_once) in
    record {
      no_empty = kept;
      once = kept';
      once' = AllNodup-delete id r.by_id h.once';
      keys_once = kept'';
    }

tidy : {r : Registry} → IsValid r → IsTidy r
tidy v = record {
  no_empty = v.no_empty_name;
  once = v.subscribers_once;
  once' = v.names_once;
  keys_once = v.keys_once;
}

valid :
    {r : Registry}
    → IsTidy r
    → ((name : Bytes) (id : ℕ) → is_member r name id ≡ is_listed r name id)
    → IsValid r
valid t agree = record {
  agree = agree;
  no_empty_name = t.no_empty;
  subscribers_once = t.once;
  names_once = t.once';
  keys_once = t.keys_once;
}

pub subscribe-IsValid :
    (id : ℕ) (names : List Bytes) (r : Registry) → IsValid r → IsValid (subscribe id names r).0
subscribe-IsValid id names r v =
    valid
      (unfold subscribe in
        subscribe_loop-IsTidy id names (open_id id r)
          (open_at-IsTidy id (lookup id r.by_id) r (tidy v)))
      λ name j. ground (arith, subscribe_lem id names r name j, v.agree name j)

pub unsubscribe-IsValid :
    (id : ℕ) (names : List Bytes) (r : Registry) → IsValid r → IsValid (unsubscribe id names r).0
unsubscribe-IsValid id names r v =
    valid
      (unfold unsubscribe in unsubscribe_loop-IsTidy id (unsubscribe_names id names r) r (tidy v))
      λ name j. ground (arith, unsubscribe_lem id names r v.agree name j, v.agree name j)

pub remove_subscriber-IsValid :
    (id : ℕ) (r : Registry) → IsValid r → IsValid (remove_subscriber id r)
remove_subscriber-IsValid id r v =
    valid (unfold remove_subscriber in remove_at-IsTidy id (lookup id r.by_id) r (tidy v))
      λ name j. ground (arith, remove_subscriber_lem id r v.agree name j, v.agree name j)

-- The calls that change a registry.
pub data Call : Type 0 where
  subscribe_call : ℕ → List Bytes → Call
  unsubscribe_call : ℕ → List Bytes → Call
  remove_call : ℕ → Call

abbrev pub apply_call : Call → Registry → Registry
apply_call (subscribe_call id names) r = (subscribe id names r).0
apply_call (unsubscribe_call id names) r = (unsubscribe id names r).0
apply_call (remove_call id) r = remove_subscriber id r

abbrev pub apply_calls : List Call → Registry → Registry
apply_calls [] r = r
apply_calls (c ∷ cs) r = apply_calls cs (apply_call c r)

apply_call-IsValid : (c : Call) (r : Registry) → IsValid r → IsValid (apply_call c r)
apply_call-IsValid (subscribe_call id names) r v = subscribe-IsValid id names r v
apply_call-IsValid (unsubscribe_call id names) r v = unsubscribe-IsValid id names r v
apply_call-IsValid (remove_call id) r v = remove_subscriber-IsValid id r v

apply_calls-IsValid : (cs : List Call) (r : Registry) → IsValid r → IsValid (apply_calls cs r)
apply_calls-IsValid [] r v = v
apply_calls-IsValid (c ∷ cs) r v =
    apply_calls-IsValid cs (apply_call c r) (apply_call-IsValid c r v)

pub IsValid-empty : IsValid empty
unfolding lookup members has contains keys
IsValid-empty = record {
  agree = λ name id. refl;
  no_empty_name = λ k e. cc;
  subscribers_once = λ k. tt;
  names_once = λ k. tt;
  keys_once = tt;
}

-- After any calls, in any order and by any subscribers, the two indexes say the same, no name is kept
-- with nobody under it, and no set repeats an element.
pub reachable-IsValid : (cs : List Call) → IsValid (apply_calls cs empty)
reachable-IsValid cs = apply_calls-IsValid cs empty IsValid-empty
