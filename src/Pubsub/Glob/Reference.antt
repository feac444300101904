-- ===== src/Pubsub/Glob/Reference.antt =====
-- The reference matcher, and what a star in the pattern can take.
use postkeys.Base.{ℕ, ◌≡◌, ◌≢◌, refl, Bool, true, false, ◌&&◌, ◌||◌, [], ◌∷◌, ◌==◌, compare_numbers}
use postkeys.Base.{All, arith, if◌then◌else◌}
use postkeys.Base.Bytes.{Bytes}
use postkeys.Pubsub.Glob.{star, any}

-- A star stands for any bytes, `?` for any one byte, and every other byte for itself.
unfoldable pub matches : Bytes → Bytes → Bool
matches [] [] = true
matches [] (c ∷ s) = false
matches (a ∷ p) [] = a == star && matches p []
matches (a ∷ p) (c ∷ s) =
    if a == star
    then matches p (c ∷ s) || matches (a ∷ p) s
    else (a == any || a == c) && matches p s

-- No byte of the text is a star.
abbrev pub IsPlain : Bytes → Type 0
IsPlain = All (λ c. c ≢ star)

pub matches-star : (p s : Bytes) → matches p s ≡ true → matches (star ∷ p) s ≡ true
unfolding matches
matches-star p [] h = h
matches-star p (c ∷ s) h = rw h

pub matches-star-star :
    (p s : Bytes) → matches (star ∷ (star ∷ p)) s ≡ true → matches (star ∷ p) s ≡ true
unfolding matches
matches-star-star p [] h = h
matches-star-star p (c ∷ s) h = ground (arith, matches-star-star p s)

-- A match of `*p` behind the first byte of `s`, or none if there is no first byte.
unfoldable pub later : Bytes → Bytes → Bool
later p [] = false
later p (c ∷ s) = matches (star ∷ p) s

pub matches_of_later : (p s : Bytes) → later p s ≡ true → matches (star ∷ p) s ≡ true
unfolding matches later
matches_of_later p [] h = cc
matches_of_later p (c ∷ s) h = ground arith

-- A byte of the pattern that is no star takes one byte of the text.
pub later_of_matches :
    (a : ℕ) (p s : Bytes) → a ≢ star → matches (star ∷ (a ∷ p)) s ≡ true → later p s ≡ true
unfolding matches later
later_of_matches a p [] n h = ground arith
later_of_matches a p (d ∷ s) n h =
    ground (arith, matches-star p s, later_of_matches a p s n, matches_of_later p s)

pub matches-star-split : (p s : Bytes) → matches (star ∷ p) s ≡ (matches p s || later p s)
unfolding matches later
matches-star-split p [] = ground arith
matches-star-split p (c ∷ s) = refl
