-- ===== src/Prelude/Text.antt =====
-- Texts as lists of characters, where the code walks them.
use Prim.Native.Char.{Char, code}
use Prim.Native.Nat.{ℕ, ◌+◌}
use Prim.Native.String.{String}
use mathlib.Core.Path.{◌≡◌, refl, ap}
use mathlib.Core.Bool.{Bool, true, ◌&&◌}
use mathlib.Core.List.{List, [], ◌∷◌, ◌++◌}
use mathlib.Core.Option.{Option, none, some}
use local_ai_proxy.Prelude.Tests.{leb, ltb, if◌then◌else◌, nat_eq, nat_eq_iff}

abbrev pub chars : String → List Char
chars String.[] = []
chars (String.◌∷◌ c s) = c ∷ chars s

abbrev pub text : List Char → String
text [] = String.[]
text (c ∷ cs) = String.◌∷◌ c (text cs)

abbrev pub in_range : ℕ → ℕ → ℕ → Bool
in_range low high c = leb low c && leb c high

-- Does every character have its code in the range?
abbrev pub all_in : ℕ → ℕ → List Char → Bool
all_in low high [] = true
all_in low high (c ∷ s) = in_range low high (code c) && all_in low high s

pub chars-text : (s : List Char) → chars (text s) ≡ s
chars-text [] = refl
chars-text (c ∷ s) = ap (λ x. c ∷ x) (chars-text s)

-- `strings.TrimPrefix`, or `none` where `strings.HasPrefix` is false.
abbrev pub strip_prefix : List Char → List Char → Option (List Char)
strip_prefix [] s = some s
strip_prefix (c ∷ prefix) [] = none
strip_prefix (c ∷ prefix) (d ∷ s) =
    let rest = strip_prefix prefix s in if nat_eq (code c) (code d) then rest else none

-- `len(s)`: the bytes of the UTF-8 encoding.
abbrev pub byte_size : List Char → ℕ
byte_size [] = 0
byte_size (c ∷ s) =
    (if ltb (code c) 128
      then 1
      else if ltb (code c) 2048
      then 2
      else if ltb (code c) 65536
      then 3
      else 4)
    + byte_size s

pub strip_prefix-++ : (prefix s : List Char) → strip_prefix prefix (prefix ++ s) ≡ some s
strip_prefix-++ [] s = refl
strip_prefix-++ (c ∷ prefix) s =
    rw ((nat_eq_iff (code c) (code c)).1 refl, strip_prefix-++ prefix s) refl

pub text-chars : (s : String) → text (chars s) ≡ s
text-chars String.[] = refl
text-chars (String.◌∷◌ c s) = ap (λ t. String.◌∷◌ c t) (text-chars s)
