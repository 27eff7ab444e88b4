-- ===== src/Accounting/Blocks/Lookup.antt =====
-- Lookups in `found_blocks` after an UPDATE.
use stratum_server_nng.Base.{
  String, ◌≡◌, refl, inl, inr, Bool, true, some, List, [], ◌∷◌, arith, if◌then◌else◌, Bool-cases,
  find_if, any_if,
}
use stratum_server_nng.Accounting.Blocks.{FoundBlock, update_where, has_hash}
use stratum_server_nng.Accounting.Blocks.Updates.{KeepsKeys}

-- The row that a hash is found in, after an UPDATE that keeps the hashes.
pub find-update_where :
    (h : String) (p : FoundBlock → Bool) (f : FoundBlock → FoundBlock) (bs : List FoundBlock)
    (b : FoundBlock)
    → KeepsKeys f
    → find_if (has_hash h) bs ≡ some b
    → find_if (has_hash h) (update_where p f bs) ≡ some (if p b then f b else b)
find-update_where h p f [] b k e = cc
find-update_where h p f (c ∷ bs) b k e = elim (Bool-cases (has_hash h c)) [
  | inl hit ↦ elim (Bool-cases (p c)) [ inl on ↦ ground (arith, k c) | inr off ↦ ground arith ]
  | inr miss ↦ elim (Bool-cases (p c)) [
    | inl on ↦ ground (arith, k c, find-update_where h p f bs b k)
    | inr off ↦ ground (arith, find-update_where h p f bs b k)
  ]
]

pub find_hash :
    (h : String) (bs : List FoundBlock) (b : FoundBlock)
    → find_if (has_hash h) bs ≡ some b
    → has_hash h b ≡ true
find_hash h [] b e = cc
find_hash h (c ∷ bs) b e = ground (arith, find_hash h bs b)

pub any-update_where :
    (q p : FoundBlock → Bool) (f : FoundBlock → FoundBlock) (bs : List FoundBlock)
    → ((b : FoundBlock) → q (f b) ≡ q b)
    → any_if q (update_where p f bs) ≡ any_if q bs
any-update_where q p f [] k = refl
any-update_where q p f (b ∷ bs) k = elim (Bool-cases (p b)) [
  | inl on ↦ rw (on, k b, any-update_where q p f bs k)
  | inr off ↦ rw (off, any-update_where q p f bs k)
]
