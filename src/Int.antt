-- ===== src/Int.antt =====
-- Signed integers over the native numbers, and the machine integers i32 and i64 as integers whose
-- arithmetic wraps around (what Rust's release profile does, and its `as` casts).
use stratum_server_nng.Base.{
  true, false, ℕ, suc, ◌+◌, ◌-◌, ◌*◌, ◌/◌, ◌%◌, ◌^◌, ◌≤◌, ◌<◌, ◌≡◌, Bool, arith, ltb, leb,
  if◌then◌else◌,
}

-- `negsuc n` is -(n + 1).
pub data ℤ : Type 0 where
  pos : ℕ → ℤ
  negsuc : ℕ → ℤ

abbrev pos_part : ℤ → ℕ
pos_part (pos n) = n
pos_part (negsuc n) = 0

abbrev neg_part : ℤ → ℕ
neg_part (pos n) = 0
neg_part (negsuc n) = suc n

abbrev sub_ℕ : ℕ → ℕ → ℤ
sub_ℕ a b = if leb b a then pos (a - b) else negsuc (b - a - 1)

infixl 65 ◌+ℤ◌ ◌-ℤ◌
infix 50 ◌≤ℤ◌ ◌<ℤ◌
unfoldable pub ◌+ℤ◌ : ℤ → ℤ → ℤ
a +ℤ b = sub_ℕ (pos_part a + pos_part b) (neg_part a + neg_part b)

unfoldable pub ◌-ℤ◌ : ℤ → ℤ → ℤ
a -ℤ b = sub_ℕ (pos_part a + neg_part b) (neg_part a + pos_part b)

abbrev pub ◌≤ℤ◌ : ℤ → ℤ → Type 0
a ≤ℤ b = pos_part a + neg_part b ≤ pos_part b + neg_part a

abbrev pub ◌<ℤ◌ : ℤ → ℤ → Type 0
a <ℤ b = pos_part a + neg_part b < pos_part b + neg_part a

abbrev pub ltb_ℤ : ℤ → ℤ → Bool
ltb_ℤ a b = ltb (pos_part a + neg_part b) (pos_part b + neg_part a)

abbrev pub leb_ℤ : ℤ → ℤ → Bool
leb_ℤ a b = leb (pos_part a + neg_part b) (pos_part b + neg_part a)

-- With these the operations stay shut.
pub +ℤ_parts :
    (a b : ℤ)
    → pos_part (a +ℤ b) + neg_part a + neg_part b ≡ neg_part (a +ℤ b) + pos_part a + pos_part b
unfolding ◌+ℤ◌
+ℤ_parts a b = ground arith

pub -ℤ_parts :
    (a b : ℤ)
    → pos_part (a -ℤ b) + neg_part a + pos_part b ≡ neg_part (a -ℤ b) + pos_part a + neg_part b
unfolding ◌-ℤ◌
-ℤ_parts a b = ground arith

pub eq_of_parts : (a b : ℤ) → pos_part a + neg_part b ≡ pos_part b + neg_part a → a ≡ b
eq_of_parts a b h = ground arith

-- The value of a w-bit two's complement word that holds `n % 2 ^ w`, for `half` = 2 ^ (w - 1).
signed : ℕ → ℕ → ℤ
signed half n = let r = n % (2 * half) in if ltb r half then pos r else negsuc (2 * half - 1 - r)

-- The word that an integer is stored in: reduction modulo 2 ^ w.
wrap : ℕ → ℤ → ℤ
unfolding signed
wrap half (pos n) = signed half n
wrap half (negsuc n) = signed half (2 * half - 1 - n % (2 * half))

abbrev pub i32_half : ℕ
i32_half = 2147483648

abbrev pub i64_half : ℕ
i64_half = 9223372036854775808

unfoldable pub wrap_i32 : ℤ → ℤ
unfolding wrap
wrap_i32 a = wrap i32_half a

unfoldable pub wrap_i64 : ℤ → ℤ
unfolding wrap
wrap_i64 a = wrap i64_half a

abbrev pub IsI32 : ℤ → Type 0
IsI32 a = (pos_part a < i32_half) × (neg_part a ≤ i32_half)

abbrev pub IsI64 : ℤ → Type 0
IsI64 a = (pos_part a < i64_half) × (neg_part a ≤ i64_half)

-- A value in range is stored as it is.
pub wrap_i32-eq : (a : ℤ) → IsI32 a → wrap_i32 a ≡ a
unfolding wrap_i32
wrap_i32-eq (pos n) h = ground arith
wrap_i32-eq (negsuc n) h = ground arith

pub wrap_i64-eq : (a : ℤ) → IsI64 a → wrap_i64 a ≡ a
unfolding wrap_i64
wrap_i64-eq (pos n) h = ground arith
wrap_i64-eq (negsuc n) h = ground arith

-- Whatever is stored is in range.
wrap_i64-IsI64 : (a : ℤ) → IsI64 (wrap_i64 a)
unfolding wrap_i64
wrap_i64-IsI64 (pos n) = ground arith
wrap_i64-IsI64 (negsuc n) = ground arith

pub ruleset int_laws = (arith, +ℤ_parts, -ℤ_parts, eq_of_parts)

IsI64-nonneg : (a : ℤ) → pos 0 ≤ℤ a → a <ℤ pos i64_half → IsI64 a
IsI64-nonneg (pos n) h k = omega arith
IsI64-nonneg (negsuc n) h k = omega arith

-- A result from 0 up to the largest i64 is not wrapped.
pub wrap_i64_nonneg : (a : ℤ) → pos 0 ≤ℤ a → a <ℤ pos i64_half → wrap_i64 a ≡ a
wrap_i64_nonneg a h k = wrap_i64-eq a (IsI64-nonneg a h k)

pub leb_ℤ→le : (a b : ℤ) → leb_ℤ a b ≡ true → a ≤ℤ b
leb_ℤ→le a b h = ground arith

pub leb_ℤ→lt : (a b : ℤ) → leb_ℤ a b ≡ false → b <ℤ a
leb_ℤ→lt a b h = ground arith

pub ltb_ℤ→lt : (a b : ℤ) → ltb_ℤ a b ≡ true → a <ℤ b
ltb_ℤ→lt a b h = ground arith

pub ltb_ℤ→le : (a b : ℤ) → ltb_ℤ a b ≡ false → b ≤ℤ a
ltb_ℤ→le a b h = ground arith
