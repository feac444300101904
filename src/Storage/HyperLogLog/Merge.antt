-- ===== src/Storage/HyperLogLog/Merge.antt =====
-- Adding to sketches and merging them, of internal/storage/hyperloglog.go.
use postkeys.Base.{ℕ, zero, suc, ◌≡◌, refl, sym, ap, ◌∙◌, List, [], ◌∷◌, ◌++◌, arith}
use postkeys.Base.{length, length-set, replicate}
use postkeys.Base.Bytes.{Bytes}
use postkeys.Storage.HyperLogLog.{
  Sketch, new_sketch, add, raise, merge, registers, register_index, add_rank, murmur64,
}

-- The elements one after the other.
abbrev pub add_all : (Bytes → ℕ) → List Bytes → Sketch → Sketch
add_all fnv [] h = h
add_all fnv (x ∷ xs) h = add_all fnv xs (add fnv x h).0

length-raise : (i r : ℕ) (h : Sketch) → length (raise i r h).0 ≡ length h
unfolding raise
length-raise i r h = ground (arith, length-set h i r)

pub length-add_all :
    (fnv : Bytes → ℕ) (xs : List Bytes) (h : Sketch) → length (add_all fnv xs h) ≡ length h
unfolding add
length-add_all fnv [] h = refl
length-add_all fnv (x ∷ xs) h =
    length-add_all fnv xs (add fnv x h).0
    ∙ length-raise (register_index (murmur64 fnv x)) (add_rank (murmur64 fnv x)) h

merge-raise :
    (i r : ℕ) (h other : Sketch)
    → length h ≡ length other
    → merge h (raise i r other).0 ≡ (raise i r (merge h other)).0
unfolding merge raise
merge-raise i r [] [] e = ground arith
merge-raise i r [] (y ∷ other) e = ground arith
merge-raise i r (x ∷ h) [] e = ground arith
merge-raise zero r (x ∷ h) (y ∷ other) e = ground arith
merge-raise (suc i) r (x ∷ h) (y ∷ other) e = ground (arith, merge-raise i r h other (ground arith))

length-merge : (h other : Sketch) → length (merge h other) ≡ length h
unfolding merge
length-merge [] other = refl
length-merge (x ∷ h) [] = refl
length-merge (x ∷ h) (y ∷ other) = ap suc (length-merge h other)

merge-add :
    (fnv : Bytes → ℕ) (x : Bytes) (h other : Sketch)
    → length h ≡ length other
    → merge h (add fnv x other).0 ≡ (add fnv x (merge h other)).0
unfolding add
merge-add fnv x h other e =
    merge-raise (register_index (murmur64 fnv x)) (add_rank (murmur64 fnv x)) h other e

pub merge-add_all :
    (fnv : Bytes → ℕ) (xs : List Bytes) (h other : Sketch)
    → length h ≡ length other
    → merge h (add_all fnv xs other) ≡ add_all fnv xs (merge h other)
merge-add_all fnv [] h other e = refl
merge-add_all fnv (x ∷ xs) h other e =
    merge-add_all fnv xs h (add fnv x other).0 (e ∙ sym (length-add_all fnv (x ∷ []) other))
    ∙ ap (add_all fnv xs) (merge-add fnv x h other e)

merge-zeros : (n : ℕ) (h : Sketch) → length h ≡ n → merge h (replicate n 0) ≡ h
unfolding merge
merge-zeros zero [] e = refl
merge-zeros zero (x ∷ h) e = refl
merge-zeros (suc n) [] e = refl
merge-zeros (suc n) (x ∷ h) e = ground (arith, merge-zeros n h (ground arith))

pub length-zeros : (n : ℕ) → let zeros : Sketch = replicate n 0 in length zeros ≡ n
length-zeros zero = refl
length-zeros (suc n) = ap suc (length-zeros n)

pub merge-new : (h : Sketch) → length h ≡ length new_sketch → merge h new_sketch ≡ h
unfolding new_sketch
merge-new h e = merge-zeros registers h (e ∙ length-zeros registers)

pub add_all-append :
    (fnv : Bytes → ℕ) (xs ys : List Bytes) (h : Sketch)
    → add_all fnv (xs ++ ys) h ≡ add_all fnv ys (add_all fnv xs h)
add_all-append fnv [] ys h = refl
add_all-append fnv (x ∷ xs) ys h = add_all-append fnv xs ys (add fnv x h).0
