-- ===== src/Utf8/Scalar.antt =====
-- Unicode scalar values and their UTF-8 form, by the standard's table: what src/ucb/unicode.c is
-- held to.
use ucb.Common.{ℕ, ◌+◌, ◌/◌, ◌%◌, ◌≤◌, ◌<◌, List, [], ◌∷◌, ◌++◌, ltb, if◌then◌else◌, ◌⊎◌}

-- A code point that is no surrogate and not above U+10FFFF.
abbrev pub IsScalar : ℕ → Type 0
IsScalar cp = (cp < 0xd800) ⊎ (0xe000 ≤ cp) × (cp < 0x110000)

abbrev pub cont : ℕ → ℕ
cont n = 128 + n % 64

unfoldable pub utf8 : ℕ → List ℕ
utf8 cp =
    if ltb cp 0x80
    then cp ∷ []
    else if ltb cp 0x800
    then (192 + cp / 64) ∷ cont cp ∷ []
    else if ltb cp 0x10000
    then (224 + cp / 4096) ∷ cont (cp / 64) ∷ cont cp ∷ []
    else (240 + cp / 262144) ∷ cont (cp / 4096) ∷ cont (cp / 64) ∷ cont cp ∷ []

-- A text as the bytes of its code points.
unfoldable pub utf8_all : List ℕ → List ℕ
utf8_all [] = []
utf8_all (cp ∷ cps) = utf8 cp ++ utf8_all cps
