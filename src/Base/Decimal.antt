-- ===== src/Base/Decimal.antt =====
-- Decimal numbers in texts, hexadecimal numbers of fixed width, and texts cut at a separator.
use Prim.Native.Nat.{ℕ, zero, suc, ◌+◌, ◌-◌, ◌*◌, ◌/◌, ◌%◌, ◌<◌}
use Prim.Native.String.{String}
use Prim.Native.Char.{Char, code}
use mathlib.Core.Path.{◌≡◌, refl, sym, ap, ◌∙◌}
use mathlib.Core.Bool.{Bool, true, false, not, ◌&&◌}
use mathlib.Core.Option.{Option, none, some}
use native.Mathlib.Omega.{arith}
use stratum_server_nng.Base.Tests.{if◌then◌else◌, ltb, leb, ◌==◌}
use stratum_server_nng.Base.Texts.{append_text, digit, digits, decimal}

abbrev pub u64_bound : ℕ
u64_bound = 18446744073709551616

abbrev is_digit : Char → Bool
is_digit c = leb 48 (code c) && leb (code c) 57

-- The digits of `str::parse::<u64>`, behind those that gave `n`.
unfoldable scan_u64 : String → ℕ → Option ℕ
scan_u64 String.[] n = some n
scan_u64 (String.◌∷◌ c s) n =
    let rest = scan_u64 s (n * 10 + (code c - 48)) in
    if is_digit c && ltb (n * 10 + (code c - 48)) u64_bound then rest else none

-- `str::parse::<u64>`: a sign `+` may stand before the digits, of which there is one at least.
abbrev scan_some : String → Option ℕ
unfolding scan_u64
scan_some String.[] = none
scan_some (String.◌∷◌ c s) = scan_u64 (String.◌∷◌ c s) 0

unfoldable pub parse_u64 : String → Option ℕ
unfolding scan_u64
parse_u64 String.[] = none
parse_u64 (String.◌∷◌ c s) = if code c == b'+' then scan_some s else scan_u64 (String.◌∷◌ c s) 0

pub append_text_assoc :
    (s t u : String) → append_text (append_text s t) u ≡ append_text s (append_text t u)
append_text_assoc String.[] t u = refl
append_text_assoc (String.◌∷◌ c s) t u = ap (String.◌∷◌ c) (append_text_assoc s t u)

scan_u64-digit :
    (d m : ℕ) (t : String)
    → d < 10
    → m * 10 + d < u64_bound
    → scan_u64 (append_text (digit d) t) m ≡ scan_u64 t (m * 10 + d)
unfolding scan_u64
scan_u64-digit d m t h k = ground arith

-- Reading the digits of `n` gives `n`.
scan_u64-digits :
    (fuel n : ℕ) (t : String)
    → n < fuel
    → n < u64_bound
    → scan_u64 (append_text (digits fuel n) t) 0 ≡ scan_u64 t n
scan_u64-digits zero n t h k = absurd (omega arith)
scan_u64-digits (suc fuel) n t h k = ground (
  arith,
  scan_u64-digit n 0 t,
  scan_u64-digit (n % 10) (n / 10) t,
  scan_u64-digits fuel (n / 10) (append_text (digit (n % 10)) t),
  append_text_assoc (digits fuel (n / 10)) (digit (n % 10)) t,
)

-- Every character passes a test of its number.
abbrev every : (ℕ → Bool) → String → Bool
every p String.[] = true
every p (String.◌∷◌ c s) = p (code c) && every p s

every-append_text :
    (p : ℕ → Bool) (s t : String)
    → every p s ≡ true
    → every p t ≡ true
    → every p (append_text s t) ≡ true
every-append_text p String.[] t h k = k
every-append_text p (String.◌∷◌ c s) t h k = ground (arith, every-append_text p s t)

pub every_mono :
    (p q : ℕ → Bool) (s : String)
    → ((n : ℕ) → p n ≡ true → q n ≡ true)
    → every p s ≡ true
    → every q s ≡ true
every_mono p q String.[] f h = refl
every_mono p q (String.◌∷◌ c s) f h = ground (arith, f (code c), every_mono p q s f)

abbrev pub digit_code : ℕ → Bool
digit_code n = leb 48 n && leb n 57

digits-every : (fuel n : ℕ) → every digit_code (digits fuel n) ≡ true
digits-every zero n = refl
digits-every (suc fuel) n = ground (
  arith,
  digits-every fuel (n / 10),
  every-append_text digit_code (digits fuel (n / 10)) (digit (n % 10)),
)

-- A number is written with digits only.
pub decimal-every : (n : ℕ) → every digit_code (decimal n) ≡ true
unfolding decimal
decimal-every n = digits-every (suc n) n

abbrev is_empty_text : String → Bool
is_empty_text String.[] = true
is_empty_text (String.◌∷◌ c s) = false

append_not_empty :
    (s t : String) → is_empty_text t ≡ false → is_empty_text (append_text s t) ≡ false
append_not_empty String.[] t h = h
append_not_empty (String.◌∷◌ c s) t h = refl

decimal_not_empty : (n : ℕ) → is_empty_text (decimal n) ≡ false
unfolding decimal
decimal_not_empty n = ground (arith, append_not_empty (digits n (n / 10)) (digit (n % 10)))

parse_u64-scan :
    (s : String) → is_empty_text s ≡ false → every digit_code s ≡ true → parse_u64 s ≡ scan_u64 s 0
unfolding parse_u64
parse_u64-scan String.[] h k = cc
parse_u64-scan (String.◌∷◌ c s) h k = ground arith

pub append_text-nil : (s : String) → append_text s "" ≡ s
append_text-nil String.[] = refl
append_text-nil (String.◌∷◌ c s) = ap (String.◌∷◌ c) (append_text-nil s)

scan_u64-decimal : (n : ℕ) → n < u64_bound → scan_u64 (decimal n) 0 ≡ some n
unfolding decimal scan_u64
scan_u64-decimal n h =
    ap (λ s. scan_u64 s 0) (sym (append_text-nil (digits (suc n) n)))
    ∙ scan_u64-digits (suc n) n "" (omega arith) h

-- Every u64 is read back from its decimal print.
pub parse_u64-decimal : (n : ℕ) → n < u64_bound → parse_u64 (decimal n) ≡ some n
parse_u64-decimal n h =
    parse_u64-scan (decimal n) (decimal_not_empty n) (decimal-every n) ∙ scan_u64-decimal n h

pub decimal_inj : (m n : ℕ) → m < u64_bound → n < u64_bound → decimal m ≡ decimal n → m ≡ n
decimal_inj m n h k e =
    let read : parse_u64 (decimal m) ≡ parse_u64 (decimal n) = ap parse_u64 e in
    let same : ◌≡◌ {A = Option ℕ} (some m) (some n) =
      sym (parse_u64-decimal m h) ∙ read ∙ parse_u64-decimal n k in
    cc same

-- Where a text is cut at the first and at the last occurrence of a character.
abbrev pub lacks : ℕ → String → Bool
lacks k s = every (λ n. not (n == k)) s

pub append_text_sep_inj :
    (k : ℕ) (c : Char) (a b s t : String)
    → code c ≡ k
    → lacks k a ≡ true
    → lacks k b ≡ true
    → append_text a (String.◌∷◌ c s) ≡ append_text b (String.◌∷◌ c t)
    → (a ≡ b) × (s ≡ t)
append_text_sep_inj k c String.[] String.[] s t e h1 h2 q = (refl, cc q)
append_text_sep_inj k c String.[] (String.◌∷◌ d b) s t e h1 h2 q =
    let same : c ≡ d = cc q in ground (arith, ap code same)
append_text_sep_inj k c (String.◌∷◌ d a) String.[] s t e h1 h2 q =
    let same : d ≡ c = cc q in ground (arith, ap code same)
append_text_sep_inj k c (String.◌∷◌ d a) (String.◌∷◌ f b) s t e h1 h2 q =
    let heads : d ≡ f = cc q in
    let (left, right) = append_text_sep_inj k c a b s t e (ground arith) (ground arith) (cc q) in
    (cc (heads, left), right)
