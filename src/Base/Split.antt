-- ===== src/Base/Split.antt =====
-- `strings.Split` at one character, `strings.LastIndexByte`, and the texts that lack a character.
use Prim.Native.Char.{Char, code}
use proxify_vpn.Base.{List, String, [], ap, arith, false, if◌then◌else◌, refl, ℕ, ◌==◌, ◌∷◌, ◌≡◌}
use proxify_vpn.Base.Text.{contains, ◌<>◌}

-- A character before the first of the parts.
abbrev pub onto_first : Char → List String → List String
onto_first c [] = String.◌∷◌ c String.[] ∷ []
onto_first c (p ∷ ps) = String.◌∷◌ c p ∷ ps

unfoldable pub split : ℕ → String → List String
split sep String.[] = "" ∷ []
split sep (String.◌∷◌ c s) =
    let rest = split sep s in if code c == sep then "" ∷ rest else onto_first c rest

abbrev pub Lacks : ℕ → String → Type 0
Lacks sep s = contains sep s ≡ false

-- What stands before the separator is a part of its own.
pub split_at :
    (sep : Char) (p rest : String)
    → Lacks (code sep) p
    → split (code sep) (p <> String.◌∷◌ sep rest) ≡ p ∷ split (code sep) rest
unfolding split contains
split_at sep String.[] rest h = ground arith
split_at sep (String.◌∷◌ c p) rest h = ground (arith, split_at sep p rest)

pub split_none : (sep : ℕ) (p : String) → Lacks sep p → split sep p ≡ p ∷ []
unfolding split contains
split_none sep String.[] h = refl
split_none sep (String.◌∷◌ c p) h = ground (arith, split_none sep p)

pub Lacks-append : (sep : ℕ) (s t : String) → Lacks sep s → Lacks sep t → Lacks sep (s <> t)
unfolding contains
Lacks-append sep String.[] t h k = k
Lacks-append sep (String.◌∷◌ c s) t h k = ground (arith, Lacks-append sep s t)

pub <>_assoc : (s t u : String) → (s <> t) <> u ≡ s <> (t <> u)
<>_assoc String.[] t u = refl
<>_assoc (String.◌∷◌ c s) t u = ap (String.◌∷◌ c) (<>_assoc s t u)

pub <>_nil : (s : String) → s <> "" ≡ s
<>_nil String.[] = refl
<>_nil (String.◌∷◌ c s) = ap (String.◌∷◌ c) (<>_nil s)
