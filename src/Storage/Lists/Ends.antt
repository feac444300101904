-- ===== src/Storage/Lists/Ends.antt =====
-- The bounds of a range, as the code computes them, against the positions that the indices name.
use postkeys.Base.{
  ℕ, zero, suc, ◌+◌, ◌-◌, ◌≤◌, ◌<◌, ◌≡◌, refl, sym, ap, ◌∙◌, arith, Bool, true, false, ◌||◌, inl,
  inr, Bool-cases, Option, none, some, List, [], ◌∷◌, map, ltb, compare_numbers, if◌then◌else◌,
  length, take, drop,
}
use postkeys.Base.Int.{ℤ, pos, negsuc, ltb_ℤ, ◌+ℤ◌, pos_part}
use postkeys.Base.Bytes.{Bytes}
use postkeys.Storage.Lists.{Row, value_of}
use postkeys.Storage.Lists.Access.{from_end, bounded_range, limit_offset, keep_positions}

-- The values at positions that are neither before the one index nor behind the other.
abbrev pub between : ℤ → ℤ → ℕ → List Bytes → List Bytes
between lo hi p [] = []
between lo hi p (x ∷ xs) =
    let rest = between lo hi (suc p) xs in
    if ltb_ℤ (pos p) lo || ltb_ℤ hi (pos p) then rest else x ∷ rest

abbrev pub range_of : ℤ → ℤ → List Bytes → List Bytes
range_of start stop xs = between (from_end (length xs) start) (from_end (length xs) stop) 0 xs

-- The bounds of the code tell for every position of the list whether it is outside of the range.
abbrev pub is_outside : ℤ → ℤ → ℕ → Bool
is_outside lo hi p = ltb_ℤ (pos p) lo || ltb_ℤ hi (pos p)

-- The two ends, from indices that were counted from the left.
unfoldable pub bounds : ℕ → ℤ → ℤ → Option (ℕ × ℕ)
bounds total lo hi =
    let first = if ltb_ℤ lo (pos 0) then pos 0 else lo in
    let last = if ltb_ℤ hi (pos total) then hi else pos total +ℤ negsuc 0 in
    if ltb_ℤ last first then none else some (pos_part first, pos_part last)

pub bounded_range-bounds :
    (total : ℕ) (start stop : ℤ)
    → bounded_range total start stop ≡ bounds total (from_end total start) (from_end total stop)
unfolding bounded_range bounds
bounded_range-bounds total start stop = refl

pub data Ends (total : ℕ) (lo hi : ℤ) : Type 0 where
  empty :
      bounds total lo hi ≡ none
      → ((p : ℕ) → p < total → is_outside lo hi p ≡ true)
      → Ends total lo hi
  filled :
      (f l : ℕ)
      → f ≤ l
      → bounds total lo hi ≡ some (f, l)
      → ((p : ℕ) → p < total → is_outside lo hi p ≡ (ltb p f || ltb l p))
      → Ends total lo hi

ends-within : (total a b : ℕ) → b < total → Ends total (pos a) (pos b)
unfolding bounds
ends-within total a b small = elim (Bool-cases (ltb b a)) [
  | inl k ↦ empty (ground arith) (λ p q. ground arith)
  | inr k ↦ filled a b (ground arith) (ground arith) (λ p q. ground arith)
]

ends-beyond : (total a b : ℕ) → 0 < total → total ≤ b → Ends total (pos a) (pos b)
unfolding bounds ◌+ℤ◌
ends-beyond total a b h big = elim (Bool-cases (ltb (total - 1) a)) [
  | inl k ↦ empty (ground arith) (λ p q. ground arith)
  | inr k ↦ filled a (total - 1) (ground arith) (ground arith) (λ p q. ground arith)
]

-- An index before the list starts at its first position.
is_negative : (n : ℕ) → ltb_ℤ (negsuc n) (pos 0) ≡ true
is_negative n = ground arith

bounds-start : (total n : ℕ) (hi : ℤ) → bounds total (negsuc n) hi ≡ bounds total (pos 0) hi
unfolding bounds
bounds-start total n hi = rw (is_negative n) refl

is_outside-start : (n p : ℕ) (hi : ℤ) → is_outside (negsuc n) hi p ≡ is_outside (pos 0) hi p
is_outside-start n p hi = ground arith

ends-start : (total n : ℕ) (hi : ℤ) → Ends total (pos 0) hi → Ends total (negsuc n) hi
ends-start total n hi (empty e f) =
    empty (bounds-start total n hi ∙ e) (λ p q. is_outside-start n p hi ∙ f p q)
ends-start total n hi (filled a b le e f) =
    filled a b le (bounds-start total n hi ∙ e) (λ p q. is_outside-start n p hi ∙ f p q)

ends-none : (total a n : ℕ) → Ends total (pos a) (negsuc n)
unfolding bounds
ends-none total a n = empty (ground arith) (λ p q. ground arith)

ends-pos : (total a : ℕ) (hi : ℤ) → 0 < total → Ends total (pos a) hi
ends-pos total a (pos b) h = elim (Bool-cases (ltb b total)) [
  | inl k ↦ ends-within total a b (ground arith)
  | inr k ↦ ends-beyond total a b h (ground arith)
]
ends-pos total a (negsuc n) h = ends-none total a n

pub ends : (total : ℕ) (lo hi : ℤ) → 0 < total → Ends total lo hi
ends total (pos a) hi h = ends-pos total a hi h
ends total (negsuc n) hi h = ends-start total n hi (ends-pos total 0 hi h)

pub none-between :
    (lo hi : ℤ) (total p : ℕ) (xs : List Bytes)
    → p + length xs ≡ total
    → ((q : ℕ) → q < total → is_outside lo hi q ≡ true)
    → between lo hi p xs ≡ []
none-between lo hi total p [] e f = refl
none-between lo hi total p (x ∷ xs) e f =
    rw (f p (omega (arith, e))) (none-between lo hi total (suc p) xs (omega (arith, e)) f)

pub keep-between :
    (lo hi : ℤ) (total p a b : ℕ) (rows : List Row)
    → p + length rows ≡ total
    → ((q : ℕ) → q < total → is_outside lo hi q ≡ (ltb q a || ltb b q))
    → map value_of (keep_positions p a b rows) ≡ between lo hi p (map value_of rows)
unfolding keep_positions
keep-between lo hi total p a b [] e f = refl
keep-between lo hi total p a b (r ∷ rows) e f =
    rw (f p (omega (arith, e))) (elim (Bool-cases (ltb p a || ltb b p)) [
      | inl k ↦ rw k (keep-between lo hi total (suc p) a b rows (omega (arith, e)) f)
      | inr k ↦ rw k (
          ap (λ t. value_of r ∷ t) (keep-between lo hi total (suc p) a b rows (omega (arith, e)) f))
    ])

-- LIMIT and OFFSET keep the positions from one to the other.
pub take-nil : (n : ℕ) → let none_left : List Row = [] in take n none_left ≡ none_left
take-nil zero = refl
take-nil (suc n) = refl

keep-take :
    (p a b : ℕ) (rows : List Row) → a ≤ p → keep_positions p a b rows ≡ take (suc b - p) rows
unfolding keep_positions
keep-take p a b [] h = sym (take-nil (suc b - p))
keep-take p a b (r ∷ rows) h = elim (Bool-cases (ltb b p)) [
  | inl k ↦
      rw (k, not_before p a h)
        (keep-take (suc p) a b rows (omega arith)
          ∙ rw (nothing_left (suc b) (suc p) (ground arith), nothing_left (suc b) p (ground arith))
              refl)
  | inr k ↦
      rw (k, not_before p a h, one_more b p (ground arith))
        (ap (λ t. r ∷ t) (keep-take (suc p) a b rows (omega arith)))
]
  where
    not_before : (p a : ℕ) → a ≤ p → ltb p a ≡ false
    not_before p a h = ground arith

    nothing_left : (b p : ℕ) → b ≤ p → b - p ≡ 0
    nothing_left b p h = omega arith

    one_more : (b p : ℕ) → p ≤ b → suc b - p ≡ suc (suc b - suc p)
    one_more b p h = omega arith

keep-drop :
    (k p b : ℕ) (rows : List Row)
    → keep_positions p (p + k) b rows ≡ take (suc b - (p + k)) (drop k rows)
unfolding keep_positions
keep-drop zero p b rows = rw (same p) (keep-take p p b rows (omega arith))
  where
    same : (p : ℕ) → p + 0 ≡ p
    same p = omega arith
keep-drop (suc k) p b [] = sym (take-nil (suc b - (p + suc k)))
keep-drop (suc k) p b (r ∷ rows) = rw (before p k) (
    ap (λ a. keep_positions (suc p) a b rows) (shift p k)
    ∙ (keep-drop k (suc p) b rows ∙ ap (λ a. take (suc b - a) (drop k rows)) (sym (shift p k))))
  where
    before : (p k : ℕ) → ltb p (p + suc k) ≡ true
    before p k = ground arith

    shift : (p k : ℕ) → p + suc k ≡ suc p + k
    shift p k = omega arith

pub limit_offset-keep :
    (a b : ℕ) (rows : List Row)
    → a ≤ b
    → limit_offset (b - a + 1) a rows ≡ keep_positions 0 a b rows
unfolding limit_offset
limit_offset-keep a b rows h =
    ap (λ n. take n (drop a rows)) (count a b h)
    ∙ (sym (keep-drop a 0 b rows) ∙ ap (λ t. keep_positions 0 t b rows) (start a))
  where
    count : (a b : ℕ) → a ≤ b → b - a + 1 ≡ suc b - (0 + a)
    count a b h = omega arith

    start : (a : ℕ) → 0 + a ≡ a
    start a = omega arith
