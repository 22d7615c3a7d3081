-- ===== src/Base/Text.antt =====
-- C strings as lists of bytes before the terminator, and the comparison of `strncasecmp`.
use Prim.Native.Nat.{ℕ, zero, suc, ◌+◌}
use Prim.Native.Char.{code}
use Prim.Native.String.{String}
use mathlib.Core.Bool.{Bool, true, false, ◌&&◌}
use mathlib.Core.List.{List, [], ◌∷◌}
use mathlib.Core.Path.{◌≡◌, refl, ap}
use msp430_emulator.Base.Tests.{leb, ◌==◌, if◌then◌else◌}
use msp430_emulator.Base.Lists.{length}

abbrev pub bytes : String → List ℕ
bytes String.[] = []
bytes (String.◌∷◌ c s) = code c ∷ bytes s

abbrev pub to_lower : ℕ → ℕ
to_lower c = if leb b'A' c && leb c b'Z' then c + 32 else c

abbrev pub lower : List ℕ → List ℕ
lower [] = []
lower (c ∷ s) = to_lower c ∷ lower s

-- `!strncasecmp(a, b, n)`
unfoldable pub matches : ℕ → List ℕ → List ℕ → Bool
matches zero a b = true
matches (suc n) [] [] = true
matches (suc n) [] (y ∷ b) = false
matches (suc n) (x ∷ a) [] = false
matches (suc n) (x ∷ a) (y ∷ b) = (to_lower x == to_lower y) && matches n a b

-- `!strncasecmp(literal, s, sizeof literal)`
abbrev pub is_text : String → List ℕ → Bool
is_text literal s = matches (length (bytes literal) + 1) (bytes literal) s

-- The same, with a text that is in lower case already given as such.
abbrev matches_lower : ℕ → List ℕ → List ℕ → Bool
matches_lower zero a l = true
matches_lower (suc n) [] [] = true
matches_lower (suc n) [] (y ∷ l) = false
matches_lower (suc n) (x ∷ a) [] = false
matches_lower (suc n) (x ∷ a) (y ∷ l) = (to_lower x == y) && matches_lower n a l

matches-eq : (n : ℕ) (a s : List ℕ) → matches n a s ≡ matches_lower n a (lower s)
unfolding matches
matches-eq zero a s = refl
matches-eq (suc n) [] [] = refl
matches-eq (suc n) [] (y ∷ s) = refl
matches-eq (suc n) (x ∷ a) [] = refl
matches-eq (suc n) (x ∷ a) (y ∷ s) = ap (λ b. (to_lower x == to_lower y) && b) (matches-eq n a s)

-- The comparison does not see the case of letters.
pub matches-lower : (n : ℕ) (a s t : List ℕ) → lower s ≡ lower t → matches n a s ≡ matches n a t
matches-lower n a s t e = rw (matches-eq n a s, matches-eq n a t, e)
