-- ===== src/Storage/Keys/Delete/Order.antt =====
-- EXISTS on keys in another order.
use mathlib.Core.Path.{subst}
use mathlib.Core.List.{Permᴰ}
use postkeys.Base.{
  ℕ, ◌+◌, ◌≡◌, refl, sym, ◌∙◌, arith, false, not, ◌&&◌, ◌||◌, inl, inr, Bool-cases, List, ◌∷◌, ◌==◌,
  if◌then◌else◌,
}
use postkeys.Base.Set.{contains}
use postkeys.Base.Bytes.{Bytes, compare_bytes, same_bytes_iff}
use postkeys.Storage.Tables.{Db}
use postkeys.Storage.Keys.{exists, is_live_meta}

pub contains-perm : (k : Bytes) {xs ys : List Bytes} → Permᴰ xs ys → contains k xs ≡ contains k ys
unfolding contains
contains-perm k Permᴰ.nil = refl
contains-perm k (Permᴰ.cons e d) = rw e (ground (arith, contains-perm k d))
contains-perm k (Permᴰ.swap e f) = rw (e, f) (ground arith)
contains-perm k (Permᴰ.trans d e) = contains-perm k d ∙ contains-perm k e

exists-cons :
    (now : ℕ) (a : Bytes) (l : List Bytes) (db : Db)
    → exists now (a ∷ l) db
      ≡ (if is_live_meta now (db.meta a) && not (contains a l) then 1 else 0) + exists now l db
unfolding exists
exists-cons now a l db = ground arith

contains-cons : (k j : Bytes) (l : List Bytes) → contains k (j ∷ l) ≡ (j == k || contains k l)
unfolding contains
contains-cons k j l = refl

exists-swap :
    (now : ℕ) (a b : Bytes) (l : List Bytes) (db : Db)
    → exists now (a ∷ b ∷ l) db ≡ exists now (b ∷ a ∷ l) db
exists-swap now a b l db = elim (Bool-cases (a == b)) [
  | inl e ↦
      subst (λ x. exists now (a ∷ x ∷ l) db ≡ exists now (x ∷ a ∷ l) db) ((same_bytes_iff a b).0 e)
        refl
  | inr e ↦
      let e' : (b == a) ≡ false = ground (arith, same_bytes_iff a b, same_bytes_iff b a) in
      ground (
        arith,
        exists-cons now a (b ∷ l) db,
        exists-cons now b (a ∷ l) db,
        exists-cons now a l db,
        exists-cons now b l db,
        contains-cons a b l,
        contains-cons b a l,
        e,
        e',
      )
]

pub exists-perm :
    (now : ℕ) (db : Db) {xs ys : List Bytes} → Permᴰ xs ys → exists now xs db ≡ exists now ys db
unfolding exists
exists-perm now db Permᴰ.nil = refl
exists-perm now db (Permᴰ.cons {b = b} e d) =
    rw e (ground (arith, exists-perm now db d, contains-perm b d))
exists-perm now db (Permᴰ.swap {a = a} {b = b} {l = l} e f) =
    rw (sym e, sym f) (exists-swap now a b l db)
exists-perm now db (Permᴰ.trans d e) = exists-perm now db d ∙ exists-perm now db e
