-- ===== src/Pubsub/Glob.antt =====
-- `globMatch` of internal/pubsub/hub.go. A position in the pattern or in the text is kept as the bytes
-- from there on, and `starIdx` with `matchIdx` as the bytes behind the last star and those from where
-- it was met, `none` while `starIdx` is -1.
pub mod Reference
pub mod Correct
pub mod Ends
use postkeys.Base.{ℕ, zero, suc, ◌+◌, ◌*◌, Bool, true, false, ◌&&◌, ◌||◌, Option, none, some}
use postkeys.Base.{List, [], ◌∷◌, ◌==◌, compare_numbers, length, if◌then◌else◌}
use postkeys.Base.Bytes.{Bytes}

abbrev pub star : ℕ
star = b'*'

abbrev pub any : ℕ
any = b'?'

-- The bytes behind the last star, and the bytes of the text from where that star began to match.
abbrev pub Restart : Type 0
Restart = Option (Bytes × Bytes)

-- The second loop, and the test behind it: what is left of the pattern is stars.
all_stars : Bytes → Bool
all_stars [] = true
all_stars (a ∷ p) = a == star && all_stars p

behind_first : Bytes → Bytes
behind_first [] = []
behind_first (c ∷ s) = s

-- The first loop, `px`, `sx` and the restart point being the state; `none` is the end of the fuel.
glob_loop : ℕ → Bytes → Bytes → Restart → Option Bool
glob_loop zero p s r = none
glob_loop (suc f) p [] r = some (all_stars p)
glob_loop (suc f) [] (c ∷ s) none = some false
glob_loop (suc f) [] (c ∷ s) (some (sp, ms)) =
    glob_loop f sp (behind_first ms) (some (sp, behind_first ms))
glob_loop (suc f) (a ∷ p) (c ∷ s) r =
    let both = glob_loop f p s r in
    let met_star = glob_loop f p (c ∷ s) (some (p, c ∷ s)) in
    let again : Option Bool = elim r [
      | none ↦ some false
      | some (sp, ms) ↦ glob_loop f sp (behind_first ms) (some (sp, behind_first ms))
    ] in
    if a == any || a == c then both else if a == star then met_star else again

-- Between two restarts the loop takes at most one round for each byte of the pattern and the text, and
-- there is at most one restart for each byte of the text.
unfoldable pub glob_match : Bytes → Bytes → Option Bool
unfolding glob_loop all_stars behind_first
glob_match pattern str =
    glob_loop (suc (length str * (length pattern + length str) + (length pattern + length str)))
      pattern str none
