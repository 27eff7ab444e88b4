-- ===== src/Payout/Pending/Keys.antt =====
-- payout_batches: the keys of the selected rows, and a search behind an update of another row.
use stratum_server_nng.Base.{
  ℕ, ◌<◌, ◌≡◌, refl, ap, subst, ◌∙◌, inl, inr, Bool, true, false, Option, some, List, [], ◌∷◌,
  arith, ◌==◌, if◌then◌else◌, Bool-cases, find_if, filter_if, All, All-append,
}
use stratum_server_nng.Accounting.Batches.{PayoutBatch, newest_first, update_id}
use stratum_server_nng.Accounting.Service.Confirmation.Settled.{IsKeyed}

-- Two batches with different keys.
abbrev pub Apart : ℕ → PayoutBatch → Type 0
Apart id q = q.id == id ≡ false

above-Apart :
    (p : PayoutBatch → Bool) (id : ℕ) (bs : List PayoutBatch)
    → All (λ q. id < q.id) bs
    → All (Apart id) (filter_if p bs)
above-Apart p id [] a = tt
above-Apart p id (b ∷ bs) (above, a) =
    let rest = above-Apart p id bs a in
    let away : b.id == id ≡ false = ground (arith, above) in
    elim (Bool-cases (p b)) [ inl kept ↦ rw kept (away, rest) | inr dropped ↦ rw dropped rest ]

-- The row that a search takes: the first one, or that of the search in the rest.
pub picked_own :
    (t : Bool) (c b : PayoutBatch) (rest : Option PayoutBatch)
    → (if t then some c else rest) ≡ some b
    → t ≡ true
    → c ≡ b
picked_own true c b rest e own = cc
picked_own false c b rest e own = cc

pub picked_away :
    (t : Bool) (c b : PayoutBatch) (rest : Option PayoutBatch)
    → (if t then some c else rest) ≡ some b
    → t ≡ false
    → rest ≡ some b
picked_away true c b rest e away = cc
picked_away false c b rest e away = e

-- The selected rows differ in their keys from a row that is not selected.
pub selected-Apart :
    (p : PayoutBatch → Bool) (id : ℕ) (b : PayoutBatch) (bs : List PayoutBatch)
    → IsKeyed bs
    → find_if (λ q. q.id == id) bs ≡ some b
    → p b ≡ false
    → All (Apart id) (filter_if p bs)
selected-Apart p id b [] k e other = tt
selected-Apart p id b (c ∷ cs) (above, k) e other = elim (Bool-cases (c.id == id)) [
  | inl own ↦
      let first : c ≡ b = picked_own (c.id == id) c b (find_if (λ q. q.id == id) cs) e own in
      let dropped : p c ≡ false = ap p first ∙ other in
      let same : c.id ≡ id = ground (arith, own) in
      rw dropped (above-Apart p id cs (subst (λ n. All (λ q. n < q.id) cs) same above))
  | inr away ↦
      let found = picked_away (c.id == id) c b (find_if (λ q. q.id == id) cs) e away in
      let rest = selected-Apart p id b cs k found other in
      elim (Bool-cases (p c)) [ inl kept ↦ rw kept (away, rest) | inr dropped ↦ rw dropped rest ]
]

pub newest-Apart :
    (id : ℕ) (bs : List PayoutBatch) → All (Apart id) bs → All (Apart id) (newest_first bs)
newest-Apart id [] a = tt
newest-Apart id (b ∷ bs) (away, a) =
    All-append (Apart id) (newest_first bs) (b ∷ []) (newest-Apart id bs a) (away, tt)

pub find-update_id :
    (f : PayoutBatch → PayoutBatch) (id other : ℕ) (bs : List PayoutBatch)
    → ((b : PayoutBatch) → (f b).id ≡ b.id)
    → other == id ≡ false
    → find_if (λ q. q.id == id) (update_id other f bs) ≡ find_if (λ q. q.id == id) bs
find-update_id f id other [] keeps away = refl
find-update_id f id other (b ∷ bs) keeps away =
    let rest = find-update_id f id other bs keeps away in
    elim (Bool-cases (b.id == other)) [
      | inl hit ↦
          let missed : b.id == id ≡ false = ground (arith, hit, away) in
          rw (hit, keeps b, missed) rest
      | inr miss ↦ elim (Bool-cases (b.id == id)) [
        | inl own ↦ rw (miss, own) refl
        | inr next ↦ rw (miss, next) rest
      ]
    ]
