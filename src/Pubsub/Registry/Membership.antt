-- ===== src/Pubsub/Registry/Membership.antt =====
-- What each operation does to who is subscribed to what, in both indexes.
use postkeys.Base.{ℕ, ◌≡◌, Bool, true, not, ◌&&◌, ◌||◌, ◌==◌, compare_numbers, same_number_iff}
use postkeys.Base.{List, [], ◌∷◌, arith, Option-cases, inl, inr}
use postkeys.Base.Bytes.{Bytes, compare_bytes}
use postkeys.Base.Map.{Map, lookup, lookup-put}
use postkeys.Base.Set.{members, take_out, has, contains, has-put_in, has-take_out, has-delete}
use postkeys.Base.Set.{has_of_lookup, has_missing}
use postkeys.Pubsub.Registry.{Registry, open_id, subscribe_one, subscribe_loop, subscribe}
use postkeys.Pubsub.Registry.{unsubscribe_one, unsubscribe_loop, unsubscribe_names, unsubscribe}
use postkeys.Pubsub.Registry.{drop_from, remove_subscriber}

-- Subscriber `id` is found under `name`; and `name` is found under subscriber `id`.
abbrev pub is_member : Registry → Bytes → ℕ → Bool
is_member r name id = has name id r.by_name

abbrev pub is_listed : Registry → Bytes → ℕ → Bool
is_listed r name id = has id name r.by_id

module _ (id : ℕ) (name : Bytes) (j : ℕ) where
  members-open_id : (r : Registry) → members j (open_id id r).by_id ≡ members j r.by_id
  unfolding open_id members
  members-open_id r = ground (arith, lookup-put id j [] r.by_id, same_number_iff id j)

  is_listed-open_id : (r : Registry) → is_listed (open_id id r) name j ≡ is_listed r name j
  unfolding has
  is_listed-open_id r = rw (members-open_id r)

  is_member-open_id : (r : Registry) → is_member (open_id id r) name j ≡ is_member r name j
  unfolding open_id
  is_member-open_id r = ground arith

  is_listed-subscribe_loop :
      (names : List Bytes) (r : Registry)
      → is_listed (subscribe_loop id names r).0 name j
        ≡ (id == j && contains name names || is_listed r name j)
  unfolding subscribe_loop subscribe_one contains
  is_listed-subscribe_loop [] r = ground arith
  is_listed-subscribe_loop (n ∷ names) r =
      ground (
        arith,
        is_listed-subscribe_loop names (subscribe_one id n r),
        has-put_in id j n name r.by_id,
      )

  is_member-subscribe_loop :
      (names : List Bytes) (r : Registry)
      → is_member (subscribe_loop id names r).0 name j
        ≡ (id == j && contains name names || is_member r name j)
  unfolding subscribe_loop subscribe_one contains
  is_member-subscribe_loop [] r = ground arith
  is_member-subscribe_loop (n ∷ names) r = ground (
    arith,
    is_member-subscribe_loop names (subscribe_one id n r),
    has-put_in n name id j r.by_name,
  )

  is_listed-unsubscribe_loop :
      (names : List Bytes) (r : Registry)
      → is_listed (unsubscribe_loop id names r).0 name j
        ≡ (not (id == j && contains name names) && is_listed r name j)
  unfolding unsubscribe_loop unsubscribe_one contains
  is_listed-unsubscribe_loop [] r = ground arith
  is_listed-unsubscribe_loop (n ∷ names) r = ground (
    arith,
    is_listed-unsubscribe_loop names (unsubscribe_one id n r),
    has-take_out id j n name r.by_id,
  )

  is_member-unsubscribe_loop :
      (names : List Bytes) (r : Registry)
      → is_member (unsubscribe_loop id names r).0 name j
        ≡ (not (id == j && contains name names) && is_member r name j)
  unfolding unsubscribe_loop unsubscribe_one contains
  is_member-unsubscribe_loop [] r = ground arith
  is_member-unsubscribe_loop (n ∷ names) r = ground (
    arith,
    is_member-unsubscribe_loop names (unsubscribe_one id n r),
    has-take_out n name id j r.by_name,
  )

  has-drop_from :
      (names : List Bytes) (m : Map Bytes (List ℕ))
      → has name j (drop_from id names m) ≡ (not (id == j && contains name names) && has name j m)
  unfolding drop_from contains
  has-drop_from [] m = ground arith
  has-drop_from (n ∷ names) m =
      ground (arith, has-drop_from names (take_out n id m), has-take_out n name id j m)

-- After `subscribe` the subscriber is found under exactly the names that were asked for and those
-- that it had, every other subscriber under those that it had, and both indexes say so.
pub subscribe_lem :
    (id : ℕ) (names : List Bytes) (r : Registry) (name : Bytes) (j : ℕ)
    → (is_member (subscribe id names r).0 name j
        ≡ (id == j && contains name names || is_member r name j))
      × (is_listed (subscribe id names r).0 name j
          ≡ (id == j && contains name names || is_listed r name j))
unfolding subscribe
subscribe_lem id names r name j = (
  ground (
    arith,
    is_member-subscribe_loop id name j names (open_id id r),
    is_member-open_id id name j r,
  ),
  ground (
    arith,
    is_listed-subscribe_loop id name j names (open_id id r),
    is_listed-open_id id name j r,
  ),
)

-- Whether UNSUBSCRIBE of these names takes a subscriber off a name: it was given, or none was.
abbrev pub is_asked : Bytes → List Bytes → Bool
is_asked name [] = true
is_asked name (n ∷ names) = contains name (n ∷ names)

-- In a registry whose indexes agree `unsubscribe` takes the subscriber off exactly the names that it was
-- given, or off every name where it was given none, in both indexes; nobody else is touched.
pub unsubscribe_lem :
    (id : ℕ) (names : List Bytes) (r : Registry)
    → ((name : Bytes) (k : ℕ) → is_member r name k ≡ is_listed r name k)
    → (name : Bytes) (j : ℕ)
    → (is_member (unsubscribe id names r).0 name j
        ≡ (not (id == j && is_asked name names) && is_member r name j))
      × (is_listed (unsubscribe id names r).0 name j
          ≡ (not (id == j && is_asked name names) && is_listed r name j))
unfolding unsubscribe unsubscribe_names has
unsubscribe_lem id [] r agree name j =
    let names = members id r.by_id in
    (
      ground (
        arith,
        is_member-unsubscribe_loop id name j names r,
        agree name id,
        same_number_iff id j,
      ),
      ground (arith, is_listed-unsubscribe_loop id name j names r, same_number_iff id j),
    )
unsubscribe_lem id (n ∷ names) r agree name j = (
  is_member-unsubscribe_loop id name j (n ∷ names) r,
  is_listed-unsubscribe_loop id name j (n ∷ names) r,
)

is_listed-remove_subscriber :
    (id : ℕ) (r : Registry) (name : Bytes) (j : ℕ)
    → is_listed (remove_subscriber id r) name j ≡ (not (id == j) && is_listed r name j)
unfolding remove_subscriber
is_listed-remove_subscriber id r name j = elim (Option-cases (lookup id r.by_id)) [
  | inl missing ↦ ground (arith, missing, has_missing id name r.by_id missing, same_number_iff id j)
  | inr (names, found) ↦ ground (arith, found, has-delete id j name r.by_id)
]

is_member-remove_subscriber :
    (id : ℕ) (r : Registry) (name : Bytes) (j : ℕ)
    → is_member r name id ≡ is_listed r name id
    → is_member (remove_subscriber id r) name j ≡ (not (id == j) && is_member r name j)
unfolding remove_subscriber
is_member-remove_subscriber id r name j agree = elim (Option-cases (lookup id r.by_id)) [
  | inl missing ↦ ground (arith, missing, has_missing id name r.by_id missing, same_number_iff id j)
  | inr (names, found) ↦ ground (
    arith,
    found,
    has_of_lookup id name r.by_id names found,
    has-drop_from id name j names r.by_name,
    same_number_iff id j,
  )
]

-- In a registry whose indexes agree `remove_subscriber` takes the subscriber off every name, in both
-- indexes, and touches nobody else.
pub remove_subscriber_lem :
    (id : ℕ) (r : Registry)
    → ((name : Bytes) (k : ℕ) → is_member r name k ≡ is_listed r name k)
    → (name : Bytes) (j : ℕ)
    → (is_member (remove_subscriber id r) name j ≡ (not (id == j) && is_member r name j))
      × (is_listed (remove_subscriber id r) name j ≡ (not (id == j) && is_listed r name j))
remove_subscriber_lem id r agree name j = (
  is_member-remove_subscriber id r name j (agree name id),
  is_listed-remove_subscriber id r name j,
)
