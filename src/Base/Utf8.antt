-- ===== src/Base/Utf8.antt =====
-- `bytes.decode("utf-8")`, strict, and `str.encode("utf-8")`.
use Prim.Native.Nat.{ℕ, zero, suc, ◌+◌, ◌-◌, ◌*◌, ◌/◌, ◌%◌}
use mathlib.Core.Bool.{Bool, true, false, not, ◌&&◌}
use mathlib.Core.Option.{Option, none, some}
use mathlib.Core.List.{List, [], ◌∷◌, ◌++◌}
use mathlib.Core.Path.{◌≡◌, refl}
use unifi_netwatcher.Base.Tests.{ltb, leb, if◌then◌else◌}
use unifi_netwatcher.Base.Texts.{Text}

-- A code point that may stand behind its bytes: no shorter form, no surrogate, in range.
abbrev is_scalar : ℕ → ℕ → Bool
is_scalar least c = leb least c && not (leb 0xD800 c && leb c 0xDFFF) && leb c 0x10FFFF

abbrev prepend : Bool → ℕ → Option Text → Option Text
prepend true c (some s) = some (c ∷ s)
prepend _ c _ = none

-- `wanted` continuation bytes of a character are still to come; `least` is the smallest code point
-- that needs as many bytes.
unfoldable pub decode_from : ℕ → ℕ → ℕ → List ℕ → Option Text
decode_from zero least c [] = some []
decode_from (suc wanted) least c [] = none
decode_from zero least c (b ∷ bs) = elim (ltb b 0x80) [
  | true ↦ prepend true b (decode_from 0 0 0 bs)
  | false ↦ elim (leb 0xC2 b && leb b 0xDF) [
    | true ↦ decode_from 1 0x80 (b - 0xC0) bs
    | false ↦ elim (leb 0xE0 b && leb b 0xEF) [
      | true ↦ decode_from 2 0x800 (b - 0xE0) bs
      | false ↦ elim (leb 0xF0 b && leb b 0xF4) [
        | true ↦ decode_from 3 0x10000 (b - 0xF0) bs
        | false ↦ none
      ]
    ]
  ]
]
decode_from (suc zero) least c (b ∷ bs) =
    let c' = c * 64 + (b - 0x80) in
    prepend (leb 0x80 b && leb b 0xBF && is_scalar least c') c' (decode_from 0 0 0 bs)
decode_from (suc (suc wanted)) least c (b ∷ bs) = elim (leb 0x80 b && leb b 0xBF) [
  | true ↦ decode_from (suc wanted) least (c * 64 + (b - 0x80)) bs
  | false ↦ none
]

-- `none` is the `UnicodeDecodeError`.
unfoldable pub utf8_decode : List ℕ → Option Text
unfolding decode_from
utf8_decode bytes = decode_from 0 0 0 bytes

unfoldable pub utf8_char : ℕ → List ℕ
utf8_char c =
    if ltb c 0x80
    then c ∷ []
    else if ltb c 0x800
    then (0xC0 + c / 64) ∷ (0x80 + c % 64) ∷ []
    else if ltb c 0x10000
    then (0xE0 + c / 4096) ∷ (0x80 + c / 64 % 64) ∷ (0x80 + c % 64) ∷ []
    else (0xF0 + c / 262144) ∷ (0x80 + c / 4096 % 64) ∷ (0x80 + c / 64 % 64) ∷ (0x80 + c % 64) ∷ []

unfoldable pub utf8_encode : Text → List ℕ
unfolding utf8_char
utf8_encode [] = []
utf8_encode (c ∷ s) = utf8_char c ++ utf8_encode s

utf8_tests :
    (utf8_decode (0x61 ∷ 0xC3 ∷ 0xA9 ∷ 0xE2 ∷ 0x82 ∷ 0xAC ∷ []) ≡ some (0x61 ∷ 0xE9 ∷ 0x20AC ∷ []))
    × (utf8_decode (0xC3 ∷ []) ≡ none)
    × (utf8_decode (0xED ∷ 0xA0 ∷ 0x80 ∷ []) ≡ none)
    × (utf8_encode (0x61 ∷ 0xE9 ∷ 0x20AC ∷ []) ≡ 0x61 ∷ 0xC3 ∷ 0xA9 ∷ 0xE2 ∷ 0x82 ∷ 0xAC ∷ [])
unfolding utf8_decode utf8_encode
utf8_tests = (refl, refl, refl, refl)
