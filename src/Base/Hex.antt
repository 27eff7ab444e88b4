-- ===== src/Base/Hex.antt =====
-- Hexadecimal numbers of a fixed width, as `{:08x}` prints them.
use Prim.Native.Nat.{ℕ, zero, suc, ◌+◌, ◌-◌, ◌*◌, ◌/◌, ◌%◌, ◌<◌}
use Prim.Native.String.{String}
use Prim.Native.Char.{Char, code}
use mathlib.Core.Path.{◌≡◌, sym, ap, ◌∙◌}
use native.Mathlib.Omega.{arith}
use stratum_server_nng.Base.Tests.{if◌then◌else◌, ltb}
use stratum_server_nng.Base.Texts.{append_text, ascii}
use stratum_server_nng.Base.Decimal.{append_text_assoc, append_text-nil}

abbrev hex_digit : ℕ → Char
hex_digit n = ascii (if ltb n 10 then 48 + n else 87 + n)

-- The lowest digits of a number, as many as the width.
unfoldable pub hex_fixed : ℕ → ℕ → String
hex_fixed zero n = ""
hex_fixed (suc w) n = append_text (hex_fixed w (n / 16)) (String.◌∷◌ (hex_digit (n % 16)) String.[])

-- The number that digits spell behind `n`.
abbrev hex_value : String → ℕ → ℕ
hex_value String.[] n = n
hex_value (String.◌∷◌ c s) n =
    hex_value s (n * 16 + (if ltb (code c) 58 then code c - 48 else code c - 87))

abbrev hex_bound : ℕ → ℕ
hex_bound zero = 1
hex_bound (suc w) = 16 * hex_bound w

hex_value-hex_digit :
    (d m : ℕ) (t : String)
    → d < 16
    → hex_value (String.◌∷◌ (hex_digit d) t) m ≡ hex_value t (m * 16 + d)
hex_value-hex_digit d m t h = ap (hex_value t) (ground arith)

hex_value-hex_fixed_append :
    (w n : ℕ) (t : String)
    → n < hex_bound w
    → hex_value (append_text (hex_fixed w n) t) 0 ≡ hex_value t n
unfolding hex_fixed
hex_value-hex_fixed_append zero n t h = ap (hex_value t) (omega arith)
hex_value-hex_fixed_append (suc w) n t h =
    ap (λ s. hex_value s 0)
      (append_text_assoc (hex_fixed w (n / 16)) (String.◌∷◌ (hex_digit (n % 16)) "") t)
    ∙ hex_value-hex_fixed_append w (n / 16) (String.◌∷◌ (hex_digit (n % 16)) t) (omega arith)
    ∙ hex_value-hex_digit (n % 16) (n / 16) t (omega arith)
    ∙ ap (hex_value t) (omega arith)

-- The digits of a number that has no more of them are read back as it.
hex_value-hex_fixed : (w n : ℕ) → n < hex_bound w → hex_value (hex_fixed w n) 0 ≡ n
hex_value-hex_fixed w n h =
    ap (λ s. hex_value s 0) (sym (append_text-nil (hex_fixed w n)))
    ∙ hex_value-hex_fixed_append w n "" h

pub hex_fixed_inj :
    (w m n : ℕ) → m < hex_bound w → n < hex_bound w → hex_fixed w m ≡ hex_fixed w n → m ≡ n
hex_fixed_inj w m n h k e =
    sym (hex_value-hex_fixed w m h) ∙ ap (λ s. hex_value s 0) e ∙ hex_value-hex_fixed w n k
