-- ===== src/Base/Texts.antt =====
-- Python `str` as a list of code points, with the parts of `str` and `re` that the tools use.
use Prim.Native.Nat.{ℕ}
use Prim.Native.Char.{code}
use Prim.Native.String.{String}
use mathlib.Core.Path.{◌≡◌, refl, ap}
use mathlib.Core.Logic.{◌↔◌, ◌≢◌}
use mathlib.Core.List.{List, [], ◌∷◌, ◌++◌, reverse}
use mathlib.Core.Bool.{Bool, true, false, ◌&&◌, ◌||◌}
use native.Mathlib.Omega.{arith}
use agent_engineering_standa.Base.Tests.{leb, ◌==◌, if◌then◌else◌}

abbrev pub Text : Type 0
Text = List ℕ

-- The code points of a literal.
abbrev pub codes : String → Text
codes String.[] = []
codes (String.◌∷◌ c s) = code c ∷ codes s

infix 50 ◌=ᵗ◌
unfoldable pub ◌=ᵗ◌ : Text → Text → Bool
[] =ᵗ [] = true
[] =ᵗ (d ∷ t) = false
(c ∷ s) =ᵗ [] = false
(c ∷ s) =ᵗ (d ∷ t) = (c == d) && (s =ᵗ t)

pub =ᵗ_sound : (s t : Text) → (s =ᵗ t) ≡ true → s ≡ t
unfolding ◌=ᵗ◌
=ᵗ_sound [] [] h = refl
=ᵗ_sound [] (d ∷ t) h = cc
=ᵗ_sound (c ∷ s) [] h = cc
=ᵗ_sound (c ∷ s) (d ∷ t) h = ground (arith, =ᵗ_sound s t)

pub =ᵗ_refl : (s : Text) → (s =ᵗ s) ≡ true
unfolding ◌=ᵗ◌
=ᵗ_refl [] = refl
=ᵗ_refl (c ∷ s) = ground (arith, =ᵗ_refl s)

pub =ᵗ_iff : (s t : Text) → ((s =ᵗ t) ≡ true) ↔ (s ≡ t)
=ᵗ_iff s t = (=ᵗ_sound s t, λ e. cc (ap (λ (x : Text). s =ᵗ x) e, =ᵗ_refl s))

pub =ᵗ_ne : (s t : Text) → (s =ᵗ t) ≡ false → s ≢ t
=ᵗ_ne s t h e = cc ((=ᵗ_iff s t).1 e)

-- `x in xs` and `set(xs)` without repeats, on texts.
unfoldable pub contains : Text → List Text → Bool
contains x [] = false
contains x (y ∷ ys) = (x =ᵗ y) || contains x ys

pub contains-append :
    (x : Text) (ys zs : List Text) → contains x (ys ++ zs) ≡ (contains x ys || contains x zs)
unfolding contains
contains-append x [] zs = refl
contains-append x (y ∷ ys) zs = ground (arith, contains-append x ys zs)

-- `str.isspace` of one code point.
unfoldable pub is_space : ℕ → Bool
is_space c =
    leb 9 c && leb c 13
    || leb 28 c && leb c 32
    || c == 0x85
    || c == 0xa0
    || c == 0x1680
    || leb 0x2000 c && leb c 0x200a
    || c == 0x2028
    || c == 0x2029
    || c == 0x202f
    || c == 0x205f
    || c == 0x3000

unfoldable pub lstrip : Text → Text
unfolding is_space
lstrip [] = []
lstrip (c ∷ s) = let rest = lstrip s in if is_space c then rest else c ∷ s

unfoldable pub strip : Text → Text
unfolding lstrip
strip s = reverse (lstrip (reverse (lstrip s)))

unfoldable pub starts_with : Text → Text → Bool
starts_with s [] = true
starts_with [] (d ∷ t) = false
starts_with (c ∷ s) (d ∷ t) = (c == d) && starts_with s t

-- `part in text`
unfoldable pub has_part : Text → Text → Bool
unfolding starts_with
has_part part [] = starts_with [] part
has_part part (c ∷ s) = starts_with (c ∷ s) part || has_part part s

unfoldable pub is_digit : ℕ → Bool
is_digit c = leb b'0' c && leb c b'9'
