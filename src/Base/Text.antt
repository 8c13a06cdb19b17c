-- ===== src/Base/Text.antt =====
-- What the code asks of its strings: `not s`, `not s.strip()`, the digest pattern and a prefix.
use Prim.Native.Nat.{ℕ}
use Prim.Native.Char.{code}
use Prim.Native.String.{String}
use mathlib.Core.Path.{◌≡◌, refl}
use mathlib.Core.Bool.{Bool, true, false, ◌&&◌, ◌||◌}
use mathlib.Core.List.{List, [], ◌∷◌}
use text.Mathlib.Text.{◌==◌ as text_eq}
use perpetuals_carry_strateg.Base.Tests.{leb, ◌==◌}
use perpetuals_carry_strateg.Base.Lists.{length, all}

-- The characters of a text, as code points.
abbrev pub codes : String → List ℕ
codes String.[] = []
codes (String.◌∷◌ c s) = code c ∷ codes s

-- `not s`
abbrev pub is_empty : String → Bool
is_empty String.[] = true
is_empty (String.◌∷◌ c s) = false

-- The characters that `strip` removes.
abbrev is_space : ℕ → Bool
is_space c =
    (leb 9 c && leb c 13)
    || ((leb 28 c && leb c 32)
        || (c == 133
            || (c == 160
                || (c == 5_760
                    || ((leb 8_192 c && leb c 8_202)
                        || (c == 8_232
                            || (c == 8_233 || (c == 8_239 || (c == 8_287 || c == 12_288)))))))))

-- `not s.strip()`
unfoldable pub is_blank : String → Bool
is_blank s = all is_space (codes s)

abbrev is_hex : ℕ → Bool
is_hex c = (leb b'0' c && leb c b'9') || (leb b'a' c && leb c b'f')

-- `re.fullmatch(r"[0-9a-f]{64}", s)`
unfoldable pub is_digest : String → Bool
is_digest s = let cs = codes s in length cs == 64 && all is_hex cs

abbrev pub str_eq : String → String → Bool
str_eq = text_eq

-- `s + t`
abbrev pub joined : String → String → String
joined String.[] t = t
joined (String.◌∷◌ c s) t = String.◌∷◌ c (joined s t)

-- A digest for the examples.
abbrev pub sample_digest : String
sample_digest = "0123456789abcdef0123456789abcdef0123456789abcdef0123456789abcdef"

sample_digest_lem : is_digest sample_digest ≡ true
unfolding is_digest
sample_digest_lem = refl
