-- ===== src/Base/Lists.antt =====
-- Lists measured by native numbers, and predicates on lists by recursion.
use Prim.Native.Nat.{ℕ, zero, suc, ◌+◌}
use mathlib.Core.Path.{◌≡◌, refl, ap, ◌∙◌}
use mathlib.Core.Logic.{◌⊎◌, inl, inr}
use mathlib.Core.Bool.{Bool, true, false}
use mathlib.Core.Option.{Option, none, some}
use mathlib.Core.List.{List, [], ◌∷◌, ◌++◌, map}
use native.Mathlib.Omega.{arith}
use stratum_server_nng.Base.Tests.{if◌then◌else◌, Bool-cases}

module _ {ℓ} {A : Type ℓ} where
  abbrev pub length : List A → ℕ
  length [] = 0
  length (x ∷ xs) = suc (length xs)

  pub length-append : (xs ys : List A) → length (xs ++ ys) ≡ length xs + length ys
  length-append [] ys = omega arith
  length-append (x ∷ xs) ys = omega (arith, length-append xs ys)

  abbrev pub take : ℕ → List A → List A
  take zero xs = []
  take (suc n) [] = []
  take (suc n) (x ∷ xs) = x ∷ take n xs

  abbrev pub drop : ℕ → List A → List A
  drop zero xs = xs
  drop (suc n) [] = []
  drop (suc n) (x ∷ xs) = drop n xs

  -- How many items pass a test.
  abbrev pub count_if : (A → Bool) → List A → ℕ
  count_if p [] = 0
  count_if p (x ∷ xs) = if p x then suc (count_if p xs) else count_if p xs

  -- `iter().find(p)`, and `LIMIT 1` over the rows of a table.
  abbrev pub find_if : (A → Bool) → List A → Option A
  find_if p [] = none
  find_if p (x ∷ xs) = if p x then some x else find_if p xs

  abbrev pub filter_if : (A → Bool) → List A → List A
  filter_if p [] = []
  filter_if p (x ∷ xs) = if p x then x ∷ filter_if p xs else filter_if p xs

  -- `iter().any(p)`.
  abbrev pub any_if : (A → Bool) → List A → Bool
  any_if p [] = false
  any_if p (x ∷ xs) = if p x then true else any_if p xs

  abbrev pub All {κ} : (A → Type κ) → List A → Type κ
  All P [] = Unit
  All P (x ∷ xs) = P x × All P xs

  -- Membership with the position kept.
  abbrev pub Has : A → List A → Type ℓ
  Has a [] = Unit × ⊥
  Has a (x ∷ xs) = (a ≡ x) ⊎ Has a xs

  pub count_if-append :
      (p : A → Bool) (xs ys : List A) → count_if p (xs ++ ys) ≡ count_if p xs + count_if p ys
  count_if-append p [] ys = omega arith
  count_if-append p (x ∷ xs) ys = ground (arith, count_if-append p xs ys)

  pub All-append {κ} : (P : A → Type κ) (xs ys : List A) → All P xs → All P ys → All P (xs ++ ys)
  All-append P [] ys h k = k
  All-append P (x ∷ xs) ys h k = (h.0, All-append P xs ys h.1 k)

  pub map_cong :
      {B : Type ℓ} (g h : A → B) (rs : List A)
      → ((r : A) → Has r rs → g r ≡ h r)
      → map g rs ≡ map h rs
  map_cong g h [] e = refl
  map_cong g h (r ∷ rs) e = rw (e r (inl refl), map_cong g h rs (λ q m. e q (inr m)))

  pub map_fuse : (g h : A → A) (rs : List A) → map h (map g rs) ≡ map (λ r. h (g r)) rs
  map_fuse g h [] = refl
  map_fuse g h (r ∷ rs) = ap (◌∷◌ (h (g r))) (map_fuse g h rs)

  pub map_same : (g : A → A) (rs : List A) → ((r : A) → r ≡ g r) → rs ≡ map g rs
  map_same g [] h = refl
  map_same g (r ∷ rs) h = ap (◌∷◌ r) (map_same g rs h) ∙ ap (λ q. q ∷ map g rs) (h r)

pub Has-map :
    {A B : Type 0} (f : A → B) (xs : List A) (e : B)
    → Has e (map f xs)
    → (x : A) × Has x xs × (e ≡ f x)
Has-map f [] e m = absurd m.1
Has-map f (x ∷ xs) e (inl same) = (x, inl refl, same)
Has-map f (x ∷ xs) e (inr m) = let (y, there, same) = Has-map f xs e m in (y, inr there, same)

pub Has-filter_if :
    {A : Type 0} (p : A → Bool) (xs : List A) (b : A)
    → Has b (filter_if p xs)
    → Has b xs × (p b ≡ true)
Has-filter_if p [] b m = absurd m.1
Has-filter_if p (x ∷ xs) b m = elim (Bool-cases (p x)) [
  | inl kept ↦ elim (rw kept at m) [
    | inl same ↦ (inl same, ap p same ∙ kept)
    | inr later ↦ let (there, holds) = Has-filter_if p xs b later in (inr there, holds)
  ]
  | inr dropped ↦ let (there, holds) = Has-filter_if p xs b (rw dropped at m) in (inr there, holds)
]

pub Has-append : {A : Type 0} (xs ys : List A) (b : A) → Has b (xs ++ ys) → Has b xs ⊎ Has b ys
Has-append [] ys b m = inr m
Has-append (x ∷ xs) ys b (inl same) = inl (inl same)
Has-append (x ∷ xs) ys b (inr m) = elim (Has-append xs ys b m) [
  | inl left ↦ inl (inr left)
  | inr right ↦ inr right
]
