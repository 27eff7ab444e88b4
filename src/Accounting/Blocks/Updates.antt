-- ===== src/Accounting/Blocks/Updates.antt =====
-- The invariant of the table `found_blocks` of found_block_repository.rs, statement by statement.
use stratum_server_nng.Base.{
  ℕ, ◌+◌, ◌<◌, String, ◌≡◌, refl, inl, inr, Bool, true, false, some, List, [], ◌∷◌, ◌++◌, arith,
  eq_iff, if◌then◌else◌, str_eq, Bool-cases, find_if, any_if, Has,
}
use stratum_server_nng.Accounting.Blocks.{
  FoundBlock, BlockTable, NewBlock, block_row, has_hash, record_found_block, update_where,
  mark_orphaned, un_orphan, update_status, update_coinbase_txid, mark_matured, BlockStatus,
}

-- Keys grow along the table, and no later row has the hash of an earlier one.
abbrev pub Apart : ℕ → String → List FoundBlock → Type 0
Apart id hash [] = Unit {0}
Apart id hash (b ∷ bs) = (id < b.id) × (str_eq b.block_hash hash ≡ false) × Apart id hash bs

abbrev pub IsKeyed : ℕ → List FoundBlock → Type 0
IsKeyed n [] = Unit {0}
IsKeyed n (b ∷ bs) = (b.id < n) × Apart b.id b.block_hash bs × IsKeyed n bs

abbrev pub IsValid : BlockTable → Type 0
IsValid tbl = IsKeyed tbl.next_id tbl.rows

-- An UPDATE that touches neither the key nor the hash.
abbrev pub KeepsKeys : (FoundBlock → FoundBlock) → Type 0
KeepsKeys f = (b : FoundBlock) → ((f b).id ≡ b.id) × ((f b).block_hash ≡ b.block_hash)

abbrev change : (FoundBlock → Bool) → (FoundBlock → FoundBlock) → FoundBlock → FoundBlock
change p f b = if p b then f b else b

change_keeps :
    (p : FoundBlock → Bool) (f : FoundBlock → FoundBlock) → KeepsKeys f → KeepsKeys (change p f)
change_keeps p f k b = elim (Bool-cases (p b)) [ inl e ↦ rw e (k b) | inr e ↦ rw e (refl, refl) ]

Apart-update_where :
    (p : FoundBlock → Bool) (f : FoundBlock → FoundBlock) (id : ℕ) (hash : String)
    (bs : List FoundBlock)
    → KeepsKeys f
    → Apart id hash bs
    → Apart id hash (update_where p f bs)
Apart-update_where p f id hash [] k a = tt
Apart-update_where p f id hash (b ∷ bs) k a =
    let same = change_keeps p f k b in
    (omega (arith, same.0, a.0), rw same.1 (a.1), Apart-update_where p f id hash bs k a.2)

IsKeyed-update_where :
    (p : FoundBlock → Bool) (f : FoundBlock → FoundBlock) (n : ℕ) (bs : List FoundBlock)
    → KeepsKeys f
    → IsKeyed n bs
    → IsKeyed n (update_where p f bs)
IsKeyed-update_where p f n [] k v = tt
IsKeyed-update_where p f n (b ∷ bs) k v =
    let same = change_keeps p f k b in
    (
      omega (arith, same.0, v.0),
      rw (same.0, same.1) (Apart-update_where p f b.id b.block_hash bs k v.1),
      IsKeyed-update_where p f n bs k v.2,
    )

Apart-snoc :
    (id : ℕ) (hash : String) (b : FoundBlock) (bs : List FoundBlock)
    → id < b.id
    → str_eq b.block_hash hash ≡ false
    → Apart id hash bs
    → Apart id hash (bs ++ b ∷ [])
Apart-snoc id hash b [] lt ne a = (lt, ne, tt)
Apart-snoc id hash b (c ∷ bs) lt ne a = (a.0, a.1, Apart-snoc id hash b bs lt ne a.2)

pub str_eq_flip : (s t : String) → str_eq s t ≡ false → str_eq t s ≡ false
str_eq_flip s t e = ground (arith, eq_iff s t, eq_iff t s)

IsKeyed-snoc :
    (n : ℕ) (b : FoundBlock) (bs : List FoundBlock)
    → b.id ≡ n
    → any_if (has_hash b.block_hash) bs ≡ false
    → IsKeyed n bs
    → IsKeyed (n + 1) (bs ++ b ∷ [])
IsKeyed-snoc n b [] e fresh v = (omega arith, tt, tt)
IsKeyed-snoc n b (c ∷ bs) e fresh v = (
  omega (arith, v.0),
  Apart-snoc c.id c.block_hash b bs (omega (arith, v.0))
      (str_eq_flip c.block_hash b.block_hash (ground arith)) v.1,
  IsKeyed-snoc n b bs e (ground arith) v.2,
)

-- A block that is recorded in a valid table leaves it valid, and its hash was not on record
-- before.
pub record_found_block-IsValid :
    (tbl tbl' : BlockTable) (n : NewBlock) (b : FoundBlock)
    → IsValid tbl
    → record_found_block tbl n ≡ some (b, tbl')
    → IsValid tbl' × (any_if (has_hash n.block_hash) tbl.rows ≡ false)
unfolding record_found_block
record_found_block-IsValid tbl tbl' n b v e =
    ground (arith, IsKeyed-snoc tbl.next_id (block_row tbl.next_id n) tbl.rows refl)

-- Every other statement keeps it too.
mark_orphaned-IsValid :
    (tbl : BlockTable) (hash reason : String)
    → IsValid tbl
    → IsValid (mark_orphaned tbl hash reason)
unfolding mark_orphaned
mark_orphaned-IsValid tbl hash reason v =
    IsKeyed-update_where _ _ tbl.next_id tbl.rows (λ b. (refl, refl)) v

pub un_orphan-IsValid :
    (tbl : BlockTable) (hash : String) → IsValid tbl → IsValid (un_orphan tbl hash)
unfolding un_orphan
un_orphan-IsValid tbl hash v = IsKeyed-update_where _ _ tbl.next_id tbl.rows (λ b. (refl, refl)) v

update_status-IsValid :
    (tbl : BlockTable) (id : ℕ) (s : BlockStatus) → IsValid tbl → IsValid (update_status tbl id s)
unfolding update_status
update_status-IsValid tbl id s v =
    IsKeyed-update_where _ _ tbl.next_id tbl.rows (λ b. (refl, refl)) v

update_coinbase_txid-IsValid :
    (tbl : BlockTable) (id : ℕ) (txid : String)
    → IsValid tbl
    → IsValid (update_coinbase_txid tbl id txid)
unfolding update_coinbase_txid
update_coinbase_txid-IsValid tbl id txid v =
    IsKeyed-update_where _ _ tbl.next_id tbl.rows (λ b. (refl, refl)) v

pub mark_matured-IsValid :
    (tbl : BlockTable) (id : ℕ) (now : String) → IsValid tbl → IsValid (mark_matured tbl id now)
unfolding mark_matured
mark_matured-IsValid tbl id now v =
    IsKeyed-update_where _ _ tbl.next_id tbl.rows (λ b. (refl, refl)) v

pub Apart-Has :
    (id : ℕ) (hash : String) (bs : List FoundBlock) (b : FoundBlock)
    → Apart id hash bs
    → Has b bs
    → (id < b.id) × (str_eq b.block_hash hash ≡ false)
Apart-Has id hash [] b a m = absurd m.1
Apart-Has id hash (c ∷ bs) b a (inl e) = rw e (a.0, a.1)
Apart-Has id hash (c ∷ bs) b a (inr m) = Apart-Has id hash bs b a.2 m

-- In a valid table a hash is looked up to the row that has it.
get_by_hash_unique :
    (h : String) (n : ℕ) (bs : List FoundBlock) (b c : FoundBlock)
    → IsKeyed n bs
    → Has b bs
    → has_hash h b ≡ true
    → find_if (has_hash h) bs ≡ some c
    → c ≡ b
get_by_hash_unique h n [] b c v m e f = absurd m.1
get_by_hash_unique h n (d ∷ bs) b c v (inl same) e f = ground arith
get_by_hash_unique h n (d ∷ bs) b c v (inr m) e f = elim (Bool-cases (has_hash h d)) [
  | inr miss ↦ get_by_hash_unique h n bs b c v.2 m e (ground arith)
  | inl hit ↦ absurd (
      ground (
        arith,
        Apart-Has d.id d.block_hash bs b v.1 m,
        eq_iff b.block_hash h,
        eq_iff d.block_hash h,
        eq_iff b.block_hash d.block_hash,
      ))
]
