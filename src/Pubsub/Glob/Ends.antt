-- ===== src/Pubsub/Glob/Ends.antt =====
-- `globMatch` ends on every pattern and text.
use postkeys.Base.{
  ℕ, zero, suc, ◌+◌, ◌*◌, ◌≤◌, ◌<◌, ◌≡◌, refl, Bool, false, ◌||◌, ◌==◌, compare_numbers,
}
use postkeys.Base.{Option, none, some, [], ◌∷◌, length, arith, Bool-cases, inl, inr}
use postkeys.Base.{if◌then◌else◌}
use postkeys.Base.Bytes.{Bytes}
use postkeys.Pubsub.Glob.{star, any, Restart, all_stars, behind_first, glob_loop, glob_match}

-- The positions lie in a pattern of `m` bytes and a text of `n`.
abbrev Lies : ℕ → ℕ → Bytes → Bytes → Restart → Type 0
Lies m n p s none = (length p ≤ m) × (length s ≤ n)
Lies m n p s (some (sp, ms)) =
    (length p ≤ m) × (length sp ≤ m) × (length s ≤ length ms) × (length ms ≤ n)

abbrev restarts_left : Bytes → Restart → ℕ
restarts_left s none = length s
restarts_left s (some (sp, ms)) = length ms

-- No round more than this can follow.
abbrev rounds_left : ℕ → Bytes → Bytes → Restart → ℕ
rounds_left k p s r = restarts_left s r * k + (length p + length s)

abbrev IsSome : Option Bool → Type 0
IsSome o = (b : Bool) × (o ≡ some b)

abbrev AllEnd : ℕ → ℕ → ℕ → Type 0
AllEnd m n f =
    (p s : Bytes) (r : Restart)
    → Lies m n p s r
    → rounds_left (m + n) p s r < f
    → IsSome (glob_loop f p s r)

module _ (m n f : ℕ) (ends : AllEnd m n f) where
  restart_ends :
      (p s : Bytes) (c : ℕ) (sp ms : Bytes)
      → Lies m n p (c ∷ s) (some (sp, ms))
      → rounds_left (m + n) p (c ∷ s) (some (sp, ms)) < suc f
      → IsSome (glob_loop f sp (behind_first ms) (some (sp, behind_first ms)))
  unfolding behind_first
  restart_ends p s c sp [] h fuel = absurd (omega arith)
  restart_ends p s c sp (d ∷ ms) (hp, hsp, hs, hms) fuel =
      ends sp ms (some (sp, ms)) (hsp, hsp, omega arith, omega arith) (omega arith)

  eat_ends :
      (a c : ℕ) (p s : Bytes) (r : Restart)
      → Lies m n (a ∷ p) (c ∷ s) r
      → rounds_left (m + n) (a ∷ p) (c ∷ s) r < suc f
      → IsSome (glob_loop f p s r)
  eat_ends a c p s none h fuel = ends p s none (omega arith) (omega arith)
  eat_ends a c p s (some (sp, ms)) (hp, hsp, hs, hms) fuel =
      ends p s (some (sp, ms)) (omega arith, hsp, omega arith, hms) (omega arith)

  star_ends :
      (a c : ℕ) (p s : Bytes) (r : Restart)
      → Lies m n (a ∷ p) (c ∷ s) r
      → rounds_left (m + n) (a ∷ p) (c ∷ s) r < suc f
      → IsSome (glob_loop f p (c ∷ s) (some (p, c ∷ s)))
  star_ends a c p s none h fuel =
      ends p (c ∷ s) (some (p, c ∷ s)) (omega arith, omega arith, omega arith, omega arith)
        (omega arith)
  star_ends a c p s (some (sp, ms)) (hp, hsp, hs, hms) fuel =
      ends p (c ∷ s) (some (p, c ∷ s)) (omega arith, omega arith, omega arith, omega arith)
        (grind arith)

  round_ends :
      (a c : ℕ) (p s : Bytes) (r : Restart) (again : Option Bool)
      → Lies m n (a ∷ p) (c ∷ s) r
      → rounds_left (m + n) (a ∷ p) (c ∷ s) r < suc f
      → IsSome again
      → IsSome (
          if a == any || a == c
          then glob_loop f p s r
          else if a == star
          then glob_loop f p (c ∷ s) (some (p, c ∷ s))
          else again)
  round_ends a c p s r again h fuel ih = elim (Bool-cases (a == any || a == c)) [
    | inl eats ↦ rw eats (eat_ends a c p s r h fuel)
    | inr eats ↦ elim (Bool-cases (a == star)) [
      | inl starred ↦ rw (eats, starred) (star_ends a c p s r h fuel)
      | inr starred ↦ rw (eats, starred) ih
    ]
  ]

step_ends : (m n f : ℕ) → AllEnd m n f → AllEnd m n (suc f)
unfolding glob_loop
step_ends m n f ends p [] r h fuel = (all_stars p, refl)
step_ends m n f ends [] (c ∷ s) none h fuel = (false, refl)
step_ends m n f ends [] (c ∷ s) (some (sp, ms)) h fuel = restart_ends m n f ends [] s c sp ms h fuel
step_ends m n f ends (a ∷ p) (c ∷ s) none h fuel =
    round_ends m n f ends a c p s none (some false) h fuel (false, refl)
step_ends m n f ends (a ∷ p) (c ∷ s) (some (sp, ms)) h fuel =
    round_ends m n f ends a c p s (some (sp, ms)) _ h fuel
      (restart_ends m n f ends (a ∷ p) s c sp ms h fuel)

all_end : (m n f : ℕ) → AllEnd m n f
all_end m n zero p s r = λ h fuel. elim fuel [ ]
all_end m n (suc f) p s r = step_ends m n f (all_end m n f) p s r

-- The matcher answers on every pattern and every text, stars in the text included: its loop never
-- runs out of fuel.
pub glob_match_total : (pattern str : Bytes) → (b : Bool) × (glob_match pattern str ≡ some b)
unfolding glob_match
glob_match_total pattern str =
    all_end (length pattern) (length str)
      (suc (length str * (length pattern + length str) + (length pattern + length str))) pattern str
      none (omega arith) (omega arith)
