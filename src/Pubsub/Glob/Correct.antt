-- ===== src/Pubsub/Glob/Correct.antt =====
-- `globMatch` against a reference matcher, for texts with no star of their own.
use postkeys.Base.{ℕ, zero, suc, ◌+◌, ◌*◌, ◌≤◌, ◌<◌, ◌≡◌, ◌≢◌, refl, Bool, true, false, ◌||◌}
use postkeys.Base.{
  Option, none, some, [], ◌∷◌, ◌==◌, compare_numbers, length, arith, if◌then◌else◌, Bool-cases, inl,
  inr, same_number_iff, ◌∙◌, ap,
}
use postkeys.Base.Bytes.{Bytes}
use postkeys.Pubsub.Glob.{star, any, Restart, all_stars, behind_first, glob_loop, glob_match}
use postkeys.Pubsub.Glob.Reference.{matches, IsPlain, matches-star-star, later}
use postkeys.Pubsub.Glob.Reference.{later_of_matches, matches-star-split}

all_stars-eq-matches : (p : Bytes) → all_stars p ≡ matches p []
unfolding all_stars matches
all_stars-eq-matches [] = refl
all_stars-eq-matches (a ∷ p) = ground (arith, all_stars-eq-matches p)

-- What restarting can still find.
restarted : Restart → Bool
restarted none = false
restarted (some (sp, ms)) = later sp ms

-- What restarting can find, a star here can find too; so the last star stands for all before it.
abbrev Covers : Bytes → Bytes → Restart → Type 0
Covers p s r = restarted r ≡ true → later p s ≡ true

-- The positions lie in a pattern of `m` bytes and a text of `n`.
abbrev Fits : ℕ → ℕ → Bytes → Bytes → Restart → Type 0
Fits m n p s none = (length p ≤ m) × (length s ≤ n)
Fits m n p s (some (sp, ms)) =
    (length p ≤ m) × (length sp ≤ m) × (length s ≤ length ms) × (length ms ≤ n) × IsPlain ms

-- The restarts that are left.
abbrev restarts : Bytes → Restart → ℕ
restarts s none = length s
restarts s (some (sp, ms)) = length ms

abbrev rank : ℕ → Bytes → Bytes → Restart → ℕ
rank k p s r = restarts s r * k + (length p + length s)

abbrev IsRight : ℕ → Bytes → Bytes → Restart → Type 0
IsRight f p s r = glob_loop f p s r ≡ some (matches p s || restarted r)

-- The byte `a` takes the byte `c`.
Covers-eat :
    (a c : ℕ) (p s : Bytes) (r : Restart) → a ≢ star → Covers (a ∷ p) (c ∷ s) r → Covers p s r
unfolding later
Covers-eat a c p s r h k e = later_of_matches a p s h (k e)

matches-eat :
    (a c : ℕ) (p s : Bytes)
    → a ≢ star
    → (a == any || a == c) ≡ true
    → matches (a ∷ p) (c ∷ s) ≡ matches p s
unfolding matches
matches-eat a c p s h e = ground arith

-- A star in the pattern makes the older one needless.
matches-met_star :
    (p s : Bytes) (c : ℕ) (r : Restart)
    → Covers (star ∷ p) (c ∷ s) r
    → (matches p (c ∷ s) || restarted (some (p, c ∷ s)))
      ≡ (matches (star ∷ p) (c ∷ s) || restarted r)
unfolding matches later restarted
matches-met_star p s c none k = ground arith
matches-met_star p s c (some (sp, ms)) k = ground (arith, k, matches-star-star p s)

matches-stuck :
    (a c : ℕ) (p s : Bytes)
    → (a == any || a == c) ≡ false
    → (a == star) ≡ false
    → matches (a ∷ p) (c ∷ s) ≡ false
unfolding matches
matches-stuck a c p s h e = ground arith

-- The loop is right at `f`, wherever it stands.
abbrev Loops : ℕ → ℕ → ℕ → Type 0
Loops m n f =
    (p s : Bytes) (r : Restart)
    → IsPlain s
    → Fits m n p s r
    → Covers p s r
    → rank (m + n) p s r < f
    → IsRight f p s r

module _ (m n f : ℕ) (loops : Loops m n f) where
  restart_step :
      (p s : Bytes) (c : ℕ) (sp ms : Bytes)
      → Fits m n p (c ∷ s) (some (sp, ms))
      → rank (m + n) p (c ∷ s) (some (sp, ms)) < suc f
      → glob_loop f sp (behind_first ms) (some (sp, behind_first ms)) ≡ some (later sp ms)
  unfolding behind_first later restarted
  restart_step p s c sp [] fits fuel = absurd (omega arith)
  restart_step p s c sp (d ∷ ms) (hp, hsp, hs, hms, plain) fuel = ground (
    arith,
    matches-star-split sp ms,
    loops sp ms (some (sp, ms)) plain.1 (hsp, hsp, omega arith, omega arith, plain.1) (λ e. e)
        (omega arith),
  )

  eat_step :
      (a c : ℕ) (p s : Bytes) (r : Restart)
      → a ≢ star
      → IsPlain (c ∷ s)
      → Fits m n (a ∷ p) (c ∷ s) r
      → Covers (a ∷ p) (c ∷ s) r
      → rank (m + n) (a ∷ p) (c ∷ s) r < suc f
      → IsRight f p s r
  eat_step a c p s none h plain fits k fuel =
      loops p s none plain.1 (omega arith) (Covers-eat a c p s none h k) (omega arith)
  eat_step a c p s (some (sp, ms)) h plain (hp, hsp, hs, hms, plain') k fuel =
      loops p s (some (sp, ms)) plain.1 (omega arith, hsp, omega arith, hms, plain')
        (Covers-eat a c p s (some (sp, ms)) h k) (omega arith)

  star_step :
      (c : ℕ) (p s : Bytes) (r : Restart)
      → IsPlain (c ∷ s)
      → Fits m n (star ∷ p) (c ∷ s) r
      → rank (m + n) (star ∷ p) (c ∷ s) r < suc f
      → IsRight f p (c ∷ s) (some (p, c ∷ s))
  unfolding later restarted
  star_step c p s none plain fits fuel =
      loops p (c ∷ s) (some (p, c ∷ s)) plain
        (omega arith, omega arith, omega arith, omega arith, plain) (λ e. e) (omega arith)
  star_step c p s (some (sp, ms)) plain (hp, hsp, hs, hms, plain') fuel =
      loops p (c ∷ s) (some (p, c ∷ s)) plain
        (omega arith, omega arith, omega arith, omega arith, plain) (λ e. e) (grind arith)

ne_star : (a c : ℕ) → c ≢ star → (a == any || a == c) ≡ true → a ≢ star
ne_star a c h e = ground arith

-- One round at a byte of the pattern and one of the text.
module _ (m n f : ℕ) (loops : Loops m n f) (a c : ℕ) (p s : Bytes) (plain : IsPlain (c ∷ s)) where
  round_lem :
      (r : Restart)
      → Fits m n (a ∷ p) (c ∷ s) r
      → Covers (a ∷ p) (c ∷ s) r
      → rank (m + n) (a ∷ p) (c ∷ s) r < suc f
      → (again : Option Bool) → again ≡ some (restarted r)
      → (if a == any || a == c
          then glob_loop f p s r
          else if a == star
          then glob_loop f p (c ∷ s) (some (p, c ∷ s))
          else again)
        ≡ some (matches (a ∷ p) (c ∷ s) || restarted r)
  round_lem r fits k fuel again e = elim (Bool-cases (a == any || a == c)) [
    | inl eats ↦
        let h : a ≢ star = ne_star a c plain.0 eats in
        rw (eats, matches-eat a c p s h eats) (eat_step m n f loops a c p s r h plain fits k fuel)
    | inr eats ↦ elim (Bool-cases (a == star)) [
      | inl starred ↦ rw eats (met_star ((same_number_iff a star).0 starred))
      | inr starred ↦ rw (eats, starred, matches-stuck a c p s eats starred) e
    ]
  ]
    where
      met_star :
          a ≡ star
          → (if a == star then glob_loop f p (c ∷ s) (some (p, c ∷ s)) else again)
            ≡ some (matches (a ∷ p) (c ∷ s) || restarted r)
      met_star q = rw q (
          star_step m n f loops c p s r plain (rw q at fits) fuel
          ∙ ap some (matches-met_star p s c r (rw q at k)))

Loops-step : (m n f : ℕ) → Loops m n f → Loops m n (suc f)
unfolding glob_loop restarted
Loops-step m n f loops p [] r plain fits k fuel = at_end r k
  where
    at_end : (r : Restart) → Covers p [] r → some (all_stars p) ≡ some (matches p [] || restarted r)
    at_end r k = unfold later in ground (arith, k, all_stars-eq-matches p)
Loops-step m n f loops [] (c ∷ s) none plain fits k fuel = unfold matches in refl
Loops-step m n f loops [] (c ∷ s) (some (sp, ms)) plain fits k fuel =
    unfold matches in restart_step m n f loops [] s c sp ms fits fuel
Loops-step m n f loops (a ∷ p) (c ∷ s) none plain fits k fuel =
    round_lem m n f loops a c p s plain none fits k fuel (some false) refl
Loops-step m n f loops (a ∷ p) (c ∷ s) (some (sp, ms)) plain fits k fuel =
    round_lem m n f loops a c p s plain (some (sp, ms)) fits k fuel _
      (restart_step m n f loops (a ∷ p) s c sp ms fits fuel)

glob_loop-IsRight : (m n f : ℕ) → Loops m n f
glob_loop-IsRight m n zero p s r = λ plain fits k fuel. elim fuel [ ]
glob_loop-IsRight m n (suc f) p s r = Loops-step m n f (glob_loop-IsRight m n f) p s r

-- On a text with no star of its own the matcher ends, and it answers as the reference matcher does.
pub glob_match-eq-matches :
    (pattern str : Bytes) → IsPlain str → glob_match pattern str ≡ some (matches pattern str)
unfolding glob_match restarted
glob_match-eq-matches pattern str plain = ground (
  arith,
  glob_loop-IsRight (length pattern) (length str)
      (suc (length str * (length pattern + length str) + (length pattern + length str))) pattern str
      none plain (omega arith) (λ e. cc) (omega arith),
)

no_pattern_left : (f c : ℕ) (s : Bytes) → 0 < f → glob_loop f [] (c ∷ s) none ≡ some false
unfolding glob_loop
no_pattern_left zero c s h = absurd (omega arith)
no_pattern_left (suc f) c s h = refl

-- A star in the text is taken for a byte that the pattern's star matches literally: the pattern `*`
-- does not match a text that begins with a star and goes on with another byte.
pub glob_match-star_text :
    (c : ℕ) (s : Bytes) → glob_match (star ∷ []) (star ∷ (c ∷ s)) ≡ some false
unfolding glob_match glob_loop
glob_match-star_text c s = no_pattern_left _ c s (omega arith)
