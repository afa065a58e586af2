-- ===== src/Prelude/Strings.antt =====
-- JavaScript strings are sequences of UTF-16 code units: a text is the list of them.
use Prim.Native.Nat.{ℕ}
use Prim.Native.Char.{code}
use Prim.Native.String.{String}
use mathlib.Core.Path.{◌≡◌, refl}
use mathlib.Core.Bool.{Bool, true, false, ◌&&◌}
use mathlib.Core.List.{List, [], ◌∷◌, ◌++◌, reverse, reverse-append}
use native.Mathlib.Omega.{arith}
use iot_miniservers.Prelude.Tests.{nat_eqb, if◌then◌else◌}

abbrev pub Text : Type 0
Text = List ℕ

-- The text of a literal (ASCII literals only are used).
abbrev pub text : String → Text
text (String.◌∷◌ first others) = code first ∷ text others
text String.[] = []

-- `s.startsWith(prefix)`.
abbrev pub starts_with : Text → Text → Bool
starts_with s [] = true
starts_with [] (p ∷ ps) = false
starts_with (c ∷ s) (p ∷ ps) = nat_eqb c p && starts_with s ps

-- `s.endsWith(suffix)`.
abbrev pub ends_with : Text → Text → Bool
ends_with s suffix = starts_with (reverse s) (reverse suffix)

-- `s.replace(/c+$/, '')` for the character `c`.
abbrev pub strip_trailing : ℕ → Text → Text
strip_trailing c [] = []
strip_trailing c (d ∷ ds) = elim (strip_trailing c ds) [
  | [] ↦ if nat_eqb d c then [] else d ∷ []
  | e ∷ es ↦ d ∷ e ∷ es
]

pub starts_with-append : (p s : Text) → starts_with (p ++ s) p ≡ true
starts_with-append [] s = refl
starts_with-append (c ∷ p) s = ground (arith, starts_with-append p s)

pub ends_with-append : (s suffix : Text) → ends_with (s ++ suffix) suffix ≡ true
ends_with-append s suffix =
    rw (reverse-append s suffix) (starts_with-append (reverse suffix) (reverse s))
