-- ===== src/Base/Texts.antt =====
-- Texts: `format!` of two parts, prefixes, and decimal numbers.
use Prim.Native.Nat.{ℕ, zero, suc, ◌+◌, ◌/◌, ◌%◌, ◌<◌}
use Prim.Native.String.{String}
use Prim.Native.Char.{Char, char, code, IsScalar}
use mathlib.Core.Path.{◌≡◌, refl, ap, ◌∙◌}
use mathlib.Core.Logic.{inl, inr}
use mathlib.Core.Bool.{Bool, true, false, ◌&&◌}
use mathlib.Core.Option.{Option, none, some}
use text.Mathlib.TextEquality.{Char-path}
use native.Mathlib.Omega.{arith}
use stratum_server_nng.Base.Tests.{if◌then◌else◌, ltb, ◌==◌, Bool-cases}

abbrev pub append_text : String → String → String
append_text String.[] t = t
append_text (String.◌∷◌ c s) t = String.◌∷◌ c (append_text s t)

-- Whether a text starts with a prefix.
abbrev pub starts_with : String → String → Bool
starts_with String.[] t = true
starts_with (String.◌∷◌ c s) String.[] = false
starts_with (String.◌∷◌ c s) (String.◌∷◌ d t) = code c == code d && starts_with s t

-- `contains`.
unfoldable pub contains : String → String → Bool
contains p String.[] = starts_with p String.[]
contains p (String.◌∷◌ c s) =
    let rest = contains p s in if starts_with p (String.◌∷◌ c s) then true else rest

pub starts_with-append_text : (s t : String) → starts_with s (append_text s t) ≡ true
starts_with-append_text String.[] t = refl
starts_with-append_text (String.◌∷◌ c s) t = ground (arith, starts_with-append_text s t)

-- `strip_prefix`.
abbrev pub strip_prefix : String → String → Option String
strip_prefix String.[] s = some s
strip_prefix (String.◌∷◌ c p) String.[] = none
strip_prefix (String.◌∷◌ c p) (String.◌∷◌ d s) =
    let rest = strip_prefix p s in if code c == code d then rest else none

pub strip_prefix-some : (p s t : String) → strip_prefix p s ≡ some t → s ≡ append_text p t
strip_prefix-some String.[] s t e = cc
strip_prefix-some (String.◌∷◌ c p) String.[] t e = cc
strip_prefix-some (String.◌∷◌ c p) (String.◌∷◌ d s) t e = elim (Bool-cases (code c == code d)) [
  | inl same ↦
      let d_is : d ≡ c = Char-path d c (ground (arith, same)) in
      ap (λ x. String.◌∷◌ x s) d_is ∙ ap (String.◌∷◌ c) (strip_prefix-some p s t (rw same at e))
  | inr other ↦ cc (rw other at e)
]

pub scalar : (n : ℕ) → n < 128 → IsScalar n
scalar n h = ground arith

-- The ASCII character of a number below 128.
abbrev pub ascii : ℕ → Char
ascii n = char (n % 128) (scalar (n % 128) (omega arith))

abbrev pub digit : ℕ → String
digit n = String.◌∷◌ (ascii (48 + n)) String.[]

-- The decimal digits of a number; a number has at most as many digits as it counts, and one more.
abbrev pub digits : ℕ → ℕ → String
digits zero n = ""
digits (suc fuel) n =
    let rest = digits fuel (n / 10) in
    if ltb n 10 then digit n else append_text rest (digit (n % 10))

unfoldable pub decimal : ℕ → String
decimal n = digits (suc n) n
