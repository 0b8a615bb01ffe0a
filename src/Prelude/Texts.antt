-- ===== src/Prelude/Texts.antt =====
-- Texts as lists of code points, with `trim` and `toLowerCase` (the latter on the letters A to Z).
use Prim.Native.Nat.{ℕ, ◌+◌}
use Prim.Native.Char.{code}
use Prim.Native.String.{String}
use mathlib.Core.Path.{◌≡◌, refl}
use mathlib.Core.Logic.{◌↔◌}
use mathlib.Core.Bool.{Bool, true, false, ◌&&◌, ◌||◌}
use mathlib.Core.List.{List, [], ◌∷◌, reverse}
use native.Mathlib.Omega.{arith}
use text.Mathlib.TextEquality.{Char-path}
use remote_sql_agent.Prelude.Tests.{if◌then◌else◌, ◌==◌, leb}

abbrev pub codes : String → List ℕ
codes String.[] = []
codes (String.◌∷◌ c s) = code c ∷ codes s

-- The code points that `String.prototype.trim` strips.
abbrev pub is_space : ℕ → Bool
is_space c =
    leb 9 c && leb c 13
    || c == 32
    || c == 160
    || c == 5760
    || leb 8192 c && leb c 8202
    || c == 8232
    || c == 8233
    || c == 8239
    || c == 8287
    || c == 12288
    || c == 65279

unfoldable pub trim_start : List ℕ → List ℕ
trim_start [] = []
trim_start (c ∷ s) = let rest = trim_start s in if is_space c then rest else c ∷ s

unfoldable pub trim : List ℕ → List ℕ
unfolding trim_start
trim s = reverse (trim_start (reverse (trim_start s)))

unfoldable pub lower : ℕ → ℕ
lower c = if leb b'A' c && leb c b'Z' then c + 32 else c

abbrev pub codes_eq : List ℕ → List ℕ → Bool
codes_eq [] [] = true
codes_eq [] (_ ∷ _) = false
codes_eq (_ ∷ _) [] = false
codes_eq (c ∷ s) (d ∷ t) = c == d && codes_eq s t

pub codes_eq_iff : (s t : List ℕ) → (codes_eq s t ≡ true) ↔ (s ≡ t)
codes_eq_iff [] [] = ground arith
codes_eq_iff [] (d ∷ t) = ground arith
codes_eq_iff (c ∷ s) [] = ground arith
codes_eq_iff (c ∷ s) (d ∷ t) = ground (arith, codes_eq_iff s t)

pub codes-injective : (s t : String) → codes s ≡ codes t → s ≡ t
codes-injective String.[] String.[] h = refl
codes-injective String.[] (String.◌∷◌ d t) h = absurd (ground arith)
codes-injective (String.◌∷◌ c s) String.[] h = absurd (ground arith)
codes-injective (String.◌∷◌ c s) (String.◌∷◌ d t) h =
    let first : c ≡ d = Char-path c d (ground arith) in
    let rest : s ≡ t = codes-injective s t (ground arith) in λ i. String.◌∷◌ (first i) (rest i)
