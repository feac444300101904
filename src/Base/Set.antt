-- ===== src/Base/Set.antt =====
-- Go's maps that are used as sets (`map[K]bool`, or a map from an object's id to the object), as
-- lists in which nothing stands twice (`Nodup`), so `length` is Go's `len`.
use postkeys.Base.Tests.{Comparable, ◌==◌, if◌then◌else◌, Bool-cases, Option-cases}
use postkeys.Base.Map.{Map, keys, lookup, put, delete, lookup-put, lookup-delete}
use mathlib.Core.Path.{◌≡◌, refl}
use mathlib.Core.Logic.{◌≢◌, inl, inr}
use mathlib.Core.Bool.{Bool, true, false, ◌&&◌, ◌||◌, not}
use mathlib.Core.Option.{none, some}
use mathlib.Core.List.{List, [], ◌∷◌}
use native.Mathlib.Omega.{arith}

module _ {ℓ} {K : Type ℓ} ⦃e : Comparable K⦄ where
  pub same_refl : (k : K) → (k == k) ≡ true
  same_refl k = (e.same_iff k k).1 refl

  unfoldable pub contains : K → List K → Bool
  contains k [] = false
  contains k (j ∷ js) = j == k || contains k js

  -- Nothing stands twice.
  abbrev pub Nodup : List K → Type 0
  Nodup [] = Unit
  Nodup (k ∷ ks) = (contains k ks ≡ false) × Nodup ks

  unfoldable pub add : K → List K → List K
  add k [] = k ∷ []
  add k (j ∷ js) = if j == k then j ∷ js else j ∷ add k js

  unfoldable pub remove : K → List K → List K
  remove k [] = []
  remove k (j ∷ js) = let rest = remove k js in if j == k then rest else j ∷ rest

  pub contains-add : (k j : K) (s : List K) → contains j (add k s) ≡ (k == j || contains j s)
  unfolding contains add
  contains-add k j [] = refl
  contains-add k j (i ∷ s) =
      ground (arith, e.same_iff k j, e.same_iff i k, e.same_iff i j, contains-add k j s)

  pub contains-remove :
      (k j : K) (s : List K) → contains j (remove k s) ≡ (not (k == j) && contains j s)
  unfolding contains remove
  contains-remove k j [] = ground arith
  contains-remove k j (i ∷ s) =
      ground (arith, e.same_iff k j, e.same_iff i k, e.same_iff i j, contains-remove k j s)

  pub Nodup-add : (k : K) (s : List K) → Nodup s → Nodup (add k s)
  unfolding add contains
  Nodup-add k [] h = (refl, tt)
  Nodup-add k (i ∷ s) h = elim (Bool-cases (i == k)) [
    | inl p ↦ rw p h
    | inr p ↦
        rw p (
          ground (arith, contains-add k i s, e.same_iff i k, e.same_iff k i, h.0),
          Nodup-add k s h.1,
        )
  ]

  pub Nodup-remove : (k : K) (s : List K) → Nodup s → Nodup (remove k s)
  unfolding remove
  Nodup-remove k [] h = tt
  Nodup-remove k (i ∷ s) h = elim (Bool-cases (i == k)) [
    | inl p ↦ rw p (Nodup-remove k s h.1)
    | inr p ↦ rw p (ground (arith, contains-remove k i s, h.0), Nodup-remove k s h.1)
  ]

  pub add-ne-nil : (k : K) (s : List K) → add k s ≢ []
  unfolding add
  add-ne-nil k [] h = cc
  add-ne-nil k (j ∷ s) h = ground arith

  -- A set that contains nothing is empty.
  pub contains-nothing : (s : List K) → ((k : K) → contains k s ≡ false) → s ≡ []
  unfolding contains
  contains-nothing [] h = refl
  contains-nothing (k ∷ s) h = ground (arith, h k, same_refl k)

-- Maps whose values are sets; a key that is missing stands for the empty set.
module _ {ℓ κ} {K : Type ℓ} {X : Type κ} ⦃e : Comparable K⦄ ⦃d : Comparable X⦄ where
  unfoldable pub members : K → Map K (List X) → List X
  members k m = elim (lookup k m) [ none ↦ [] | some s ↦ s ]

  -- `m[k]` contains `x`.
  unfoldable pub has : K → X → Map K (List X) → Bool
  has k x m = contains x (members k m)

  -- Makes the set at `k` if there is none, and puts `x` in.
  unfoldable pub put_in : K → X → Map K (List X) → Map K (List X)
  put_in k x m = put k (add x (members k m)) m

  -- Writes the set back at `k`, or deletes `k` where it is empty.
  unfoldable pub put_back : K → List X → Map K (List X) → Map K (List X)
  put_back k [] m = delete k m
  put_back k (x ∷ xs) m = put k (x ∷ xs) m

  -- Deletes `x` from the set at `k`, and `k` itself where that leaves the set empty.
  unfoldable pub take_out : K → X → Map K (List X) → Map K (List X)
  take_out k x m = elim (lookup k m) [ none ↦ m | some s ↦ put_back k (remove x s) m ]

  pub members-put :
      (k j : K) (s : List X) (m : Map K (List X))
      → members j (put k s m) ≡ (if k == j then s else members j m)
  unfolding members
  members-put k j s m = ground (arith, lookup-put k j s m)

  pub members-delete :
      (k j : K) (m : Map K (List X)) → members j (delete k m) ≡ (if k == j then [] else members j m)
  unfolding members
  members-delete k j m = ground (arith, lookup-delete k j m)

  pub members-put_in :
      (k j : K) (x : X) (m : Map K (List X))
      → members j (put_in k x m) ≡ (if k == j then add x (members k m) else members j m)
  unfolding put_in
  members-put_in k j x m = members-put k j (add x (members k m)) m

  pub members-put_back :
      (k j : K) (s : List X) (m : Map K (List X))
      → members j (put_back k s m) ≡ (if k == j then s else members j m)
  unfolding put_back
  members-put_back k j [] m = members-delete k j m
  members-put_back k j (x ∷ xs) m = members-put k j (x ∷ xs) m

  pub members_of_lookup :
      (k : K) (m : Map K (List X)) (s : List X) → lookup k m ≡ some s → members k m ≡ s
  unfolding members
  members_of_lookup k m s h = ground arith

  pub members_missing : (k : K) (m : Map K (List X)) → lookup k m ≡ none → members k m ≡ []
  unfolding members
  members_missing k m h = ground arith

  pub members-take_out :
      (k j : K) (x : X) (m : Map K (List X))
      → members j (take_out k x m) ≡ (if k == j then remove x (members k m) else members j m)
  unfolding take_out remove
  members-take_out k j x m = elim (Option-cases (lookup k m)) [
    | inl missing ↦ ground (arith, missing, members_missing k m missing, e.same_iff k j)
    | inr (s, found) ↦
        ground (arith, found, members_of_lookup k m s found, members-put_back k j (remove x s) m)
  ]

  pub has_of_lookup :
      (k : K) (x : X) (m : Map K (List X)) (s : List X)
      → lookup k m ≡ some s
      → has k x m ≡ contains x s
  unfolding has
  has_of_lookup k x m s h = rw (members_of_lookup k m s h)

  pub has_missing : (k : K) (x : X) (m : Map K (List X)) → lookup k m ≡ none → has k x m ≡ false
  unfolding has contains
  has_missing k x m h = rw (members_missing k m h)

  pub has-put_in :
      (k j : K) (x y : X) (m : Map K (List X))
      → has j y (put_in k x m) ≡ (k == j && x == y || has j y m)
  unfolding has
  has-put_in k j x y m =
      ground (arith, members-put_in k j x m, contains-add x y (members k m), e.same_iff k j)

  pub has-take_out :
      (k j : K) (x y : X) (m : Map K (List X))
      → has j y (take_out k x m) ≡ (not (k == j && x == y) && has j y m)
  unfolding has
  has-take_out k j x y m =
      ground (arith, members-take_out k j x m, contains-remove x y (members k m), e.same_iff k j)

  pub has-delete :
      (k j : K) (y : X) (m : Map K (List X)) → has j y (delete k m) ≡ (not (k == j) && has j y m)
  unfolding has contains
  has-delete k j y m = ground (arith, members-delete k j m)

  -- Every set of the map is free of repetitions.
  abbrev pub AllNodup : Map K (List X) → Type ℓ
  AllNodup m = (k : K) → Nodup (members k m)

  -- No key is kept for an empty set.
  abbrev pub NoEmptySet : Map K (List X) → Type (ℓ ⊔ κ)
  NoEmptySet m = (k : K) → lookup k m ≢ some []

  NoEmptySet-put_back :
      (k : K) (s : List X) (m : Map K (List X)) → NoEmptySet m → NoEmptySet (put_back k s m)
  unfolding put_back
  NoEmptySet-put_back k [] m h j e' = ground (arith, lookup-delete k j m, h j)
  NoEmptySet-put_back k (x ∷ xs) m h j e' = ground (arith, lookup-put k j (x ∷ xs) m, h j)

  pub AllNodup-put_in : (k : K) (x : X) (m : Map K (List X)) → AllNodup m → AllNodup (put_in k x m)
  AllNodup-put_in k x m h j = elim (Bool-cases (k == j)) [
    | inl p ↦ rw (members-put_in, p) (Nodup-add x (members k m) (h k))
    | inr p ↦ rw (members-put_in, p) (h j)
  ]

  pub AllNodup-take_out :
      (k : K) (x : X) (m : Map K (List X)) → AllNodup m → AllNodup (take_out k x m)
  AllNodup-take_out k x m h j = elim (Bool-cases (k == j)) [
    | inl p ↦ rw (members-take_out, p) (Nodup-remove x (members k m) (h k))
    | inr p ↦ rw (members-take_out, p) (h j)
  ]

  pub NoEmptySet-put_in :
      (k : K) (x : X) (m : Map K (List X)) → NoEmptySet m → NoEmptySet (put_in k x m)
  unfolding put_in
  NoEmptySet-put_in k x m h j e' =
      ground (arith, lookup-put k j (add x (members k m)) m, add-ne-nil x (members k m), h j)

  pub NoEmptySet-take_out :
      (k : K) (x : X) (m : Map K (List X)) → NoEmptySet m → NoEmptySet (take_out k x m)
  NoEmptySet-take_out k x m h j e' = elim (Option-cases (lookup k m)) [
    | inl missing ↦ unfold take_out in ground (arith, missing, h j)
    | inr (s, found) ↦
        NoEmptySet-put_back k (remove x s) m h j (unfold take_out in ground (arith, found, e'))
  ]

-- No key stands twice in a map.
module _ {ℓ κ} {K : Type ℓ} {V : Type κ} ⦃e : Comparable K⦄ where
  abbrev pub NodupKeys : Map K V → Type 0
  NodupKeys m = Nodup (keys m)

  contains-keys-put :
      (k j : K) (v : V) (m : Map K V)
      → contains j (keys (put k v m)) ≡ (k == j || contains j (keys m))
  unfolding keys put contains
  contains-keys-put k j v [] = refl
  contains-keys-put k j v ((i, w) ∷ m) =
      ground (arith, e.same_iff k j, e.same_iff i k, e.same_iff i j, contains-keys-put k j v m)

  contains-keys-delete :
      (k j : K) (m : Map K V)
      → contains j (keys (delete k m)) ≡ (not (k == j) && contains j (keys m))
  unfolding keys delete contains
  contains-keys-delete k j [] = ground arith
  contains-keys-delete k j ((i, w) ∷ m) =
      ground (arith, e.same_iff k j, e.same_iff i k, e.same_iff i j, contains-keys-delete k j m)

  pub NodupKeys-put : (k : K) (v : V) (m : Map K V) → NodupKeys m → NodupKeys (put k v m)
  unfolding keys put contains
  NodupKeys-put k v [] h = (refl, tt)
  NodupKeys-put k v ((i, w) ∷ m) h = elim (Bool-cases (i == k)) [
    | inl p ↦ rw p h
    | inr p ↦ rw p (
      ground (arith, contains-keys-put k i v m, e.same_iff i k, e.same_iff k i, h.0),
      NodupKeys-put k v m h.1,
    )
  ]

  pub NodupKeys-delete : (k : K) (m : Map K V) → NodupKeys m → NodupKeys (delete k m)
  unfolding keys delete
  NodupKeys-delete k [] h = tt
  NodupKeys-delete k ((i, w) ∷ m) h = elim (Bool-cases (i == k)) [
    | inl p ↦ rw p (NodupKeys-delete k m h.1)
    | inr p ↦ rw p (ground (arith, contains-keys-delete k i m, h.0), NodupKeys-delete k m h.1)
  ]

  pub lookup_missing : (k : K) (m : Map K V) → contains k (keys m) ≡ false → lookup k m ≡ none
  unfolding keys lookup contains
  lookup_missing k [] h = refl
  lookup_missing k ((i, w) ∷ m) h = ground (arith, lookup_missing k m)

module _ {ℓ κ} {K : Type ℓ} {X : Type κ} ⦃e : Comparable K⦄ ⦃d : Comparable X⦄ where
  pub NodupKeys-put_in :
      (k : K) (x : X) (m : Map K (List X)) → NodupKeys m → NodupKeys (put_in k x m)
  unfolding put_in
  NodupKeys-put_in k x m h = NodupKeys-put k (add x (members k m)) m h

  pub NodupKeys-take_out :
      (k : K) (x : X) (m : Map K (List X)) → NodupKeys m → NodupKeys (take_out k x m)
  unfolding take_out
  NodupKeys-take_out k x m h = elim (Option-cases (lookup k m)) [
    | inl missing ↦ rw (missing, take_out) h
    | inr (s, found) ↦ rw (found, take_out) (back (remove x s))
  ]
    where
      back : (s : List X) → NodupKeys (put_back k s m)
      back [] = unfold put_back in NodupKeys-delete k m h
      back (y ∷ ys) = unfold put_back in NodupKeys-put k (y ∷ ys) m h

  pub has-nil : (k : K) (x : X) → has k x [] ≡ false
  unfolding has members lookup contains
  has-nil k x = refl

  pub has-cons :
      (k j : K) (x : X) (s : List X) (m : Map K (List X))
      → has k x ((j, s) ∷ m) ≡ (if j == k then contains x s else has k x m)
  unfolding has members lookup
  has-cons k j x s m = ground arith

  -- The first pair of a map without repeated keys is the only one at its key.
  pub has_tail :
      (k j : K) (x : X) (s : List X) (m : Map K (List X))
      → NodupKeys ((j, s) ∷ m)
      → (j == k) ≡ true
      → has k x m ≡ false
  unfolding keys
  has_tail k j x s m h p = has_missing k x m (lookup_missing k m (rw (← (e.same_iff j k).0 p) h.0))
