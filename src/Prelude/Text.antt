-- ===== src/Prelude/Text.antt =====
-- Python's text functions as far as the program uses them: `strip`, `lower`, `startswith`.
use Prim.Native.Nat.{ℕ, ◌+◌, ◌≤◌, compare, Ordering}
use Prim.Native.Char.{Char, char, code, IsScalar}
use Prim.Native.String.{String, ◌++◌ as ◌<>◌}
use mathlib.Core.Path.{◌≡◌, refl, ap}
use mathlib.Core.Bool.{Bool, true, false, ◌&&◌, ◌||◌}
use mathlib.Core.Logic.{dite}
use mathlib.Core.Option.{Option, none, some}
use mathlib.Core.List.{List, [], ◌∷◌, ◌++◌}
use native.Mathlib.Decide.{dec_le}
use native.Mathlib.Omega.{arith}
use text.Mathlib.TextLemmas.{cons-append, nil-append}
use credit_scoring_mlops.Prelude.Tests.{leb, if◌then◌else◌}
use credit_scoring_mlops.Prelude.Equality.{◌==◌, nat_eq}

abbrev pub codes : String → List ℕ
codes String.[] = []
codes (String.◌∷◌ c s) = code c ∷ codes s

-- `str.isspace()` of one character, also `\s` of `re`
unfoldable pub is_space : ℕ → Bool
is_space c =
    (leb 9 c && leb c 13)
    || (leb 28 c && leb c 32)
    || c == 133
    || c == 160
    || c == 5760
    || (leb 8192 c && leb c 8202)
    || c == 8232
    || c == 8233
    || c == 8239
    || c == 8287
    || c == 12288

unfoldable pub lstrip : String → String
unfolding is_space
lstrip String.[] = String.[]
lstrip (String.◌∷◌ c s) = let rest = lstrip s in if is_space (code c) then rest else String.◌∷◌ c s

abbrev is_empty : String → Bool
is_empty String.[] = true
is_empty (String.◌∷◌ c s) = false

unfoldable pub rstrip : String → String
unfolding is_space
rstrip String.[] = String.[]
rstrip (String.◌∷◌ c s) =
    let rest = rstrip s in
    if is_empty rest && is_space (code c) then String.[] else String.◌∷◌ c rest

-- `s.strip()`
unfoldable pub strip : String → String
unfolding lstrip rstrip
strip s = rstrip (lstrip s)

pub below_surrogates : (n : ℕ) → n ≤ 200 → compare n 55296 ≡ Ordering.lt
below_surrogates n h = ground arith

pub small_IsScalar : (n : ℕ) → n ≤ 200 → IsScalar n
small_IsScalar n h = rw (below_surrogates n h) tt

-- `s.lower()` of one character. Only ASCII letters and U+212A have ASCII lower cases of one character;
-- the others stay as they are here.
lower_char : Char → Char
lower_char c =
    dite (dec_le 65 (code c))
      (λ above.
        dite (dec_le (code c) 90)
          (λ below. char (code c + 32) (small_IsScalar (code c + 32) (omega arith)))
          (λ _. if code c == 8490 then "k" else c))
      (λ _. c)

unfoldable pub lower : String → String
unfolding lower_char nat_eq
lower String.[] = String.[]
lower (String.◌∷◌ c s) = String.◌∷◌ (lower_char c) (lower s)

pub codes-append : (s t : String) → codes (s <> t) ≡ codes s ++ codes t
codes-append String.[] t = rw nil-append
codes-append (String.◌∷◌ c s) t = rw (cons-append c s t) (ap (λ r. code c ∷ r) (codes-append s t))

-- The rest of a text behind a prefix.
unfoldable pub strip_prefix : List ℕ → List ℕ → Option (List ℕ)
strip_prefix [] s = some s
strip_prefix (p ∷ ps) [] = none
strip_prefix (p ∷ ps) (c ∷ s) = let rest = strip_prefix ps s in if p == c then rest else none

pub strip_prefix-append : (p s : List ℕ) → strip_prefix p (p ++ s) ≡ some s
unfolding strip_prefix
strip_prefix-append [] s = refl
strip_prefix-append (c ∷ p) s = ground (arith, strip_prefix-append p s)

pub strip_prefix-eq : (p s : List ℕ) {r : List ℕ} → strip_prefix p s ≡ some r → s ≡ p ++ r
unfolding strip_prefix
strip_prefix-eq [] s {r} h = ground arith
strip_prefix-eq (c ∷ p) [] {r} h = absurd (ground arith)
strip_prefix-eq (c ∷ p) (d ∷ s) {r} h = ground (arith, strip_prefix-eq p s {r = r})

lower-strip_test : lower (strip "  AbC9- ") ≡ "abc9-"
unfolding lower strip nat_eq dec_le
lower-strip_test = refl
