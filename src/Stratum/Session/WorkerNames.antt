-- ===== src/Stratum/Session/WorkerNames.antt =====
-- session.rs: worker names, and the full name that service.rs makes of a parsed one.
use stratum_server_nng.Base.{
  String, ◌≡◌, refl, sym, ap, subst, ◌∙◌, inl, inr, Bool, true, false, Option, none, some, arith,
  ◌==◌, Bool-cases, append_text,
}
use Prim.Native.Char.{Char, code}
use text.Mathlib.TextEquality.{codes_equal}
use stratum_server_nng.Stratum.Session.{WorkerName, split_dot, bad_suffix, parse_worker_name}

-- `format!("{}.{}", payout_address, suffix)`, or the address alone.
abbrev join_dot : String → Option String → String
join_dot a none = a
join_dot a (some t) = append_text a (append_text "." t)

unfoldable pub full_worker_name : WorkerName → String
full_worker_name w = join_dot w.payout_address w.worker_suffix

dot_char : (c : Char) (s : String) → code c == b'.' ≡ true → String.◌∷◌ "." s ≡ String.◌∷◌ c s
dot_char c s e = ap (λ d. String.◌∷◌ d s) (sym (codes_equal c "." (ground arith)))

join_dot-cons :
    (c : Char) (a : String) (o : Option String)
    → join_dot (String.◌∷◌ c a) o ≡ String.◌∷◌ c (join_dot a o)
join_dot-cons c a none = refl
join_dot-cons c a (some t) = refl

join_dot-split_dot : (s : String) → join_dot (split_dot s).0 (split_dot s).1 ≡ s
unfolding split_dot
join_dot-split_dot String.[] = refl
join_dot-split_dot (String.◌∷◌ c s) = elim (Bool-cases (code c == b'.')) [
  | inl dot ↦ rw dot (dot_char c s dot)
  | inr other ↦
      rw other
        (join_dot-cons c (split_dot s).0 (split_dot s).1 ∙ ap (String.◌∷◌ c) (join_dot-split_dot s))
]

abbrev pub HasNoDot : String → Type 0
HasNoDot String.[] = Unit {0}
HasNoDot (String.◌∷◌ c s) = (code c == b'.' ≡ false) × HasNoDot s

split_dot-HasNoDot : (s : String) → HasNoDot (split_dot s).0
unfolding split_dot
split_dot-HasNoDot String.[] = tt
split_dot-HasNoDot (String.◌∷◌ c s) = elim (Bool-cases (code c == b'.')) [
  | inl dot ↦ rw dot tt
  | inr other ↦ rw other (other, split_dot-HasNoDot s)
]

split_dot-join_dot :
    (a : String) (o : Option String) → HasNoDot a → split_dot (join_dot a o) ≡ (a, o)
unfolding split_dot
split_dot-join_dot String.[] none h = refl
split_dot-join_dot String.[] (some t) h = refl
split_dot-join_dot (String.◌∷◌ c s) none h = rw (h.0, split_dot-join_dot s none h.1)
split_dot-join_dot (String.◌∷◌ c s) (some t) h = rw (h.0, split_dot-join_dot s (some t) h.1)

module _ (is_lotus_address : String → Bool) where
  parts_of :
      (s : String) (w : WorkerName)
      → parse_worker_name is_lotus_address s ≡ some w
      → ((split_dot s).0 ≡ w.payout_address)
        × ((split_dot s).1 ≡ w.worker_suffix)
        × (is_lotus_address w.payout_address ≡ true)
        × (bad_suffix w.worker_suffix ≡ false)
  unfolding parse_worker_name
  parts_of s w e = ground arith

  -- A name that parses is put together again from its address and its suffix, the address is a
  -- Lotus address without a dot, and the suffix is not empty.
  pub full_worker_name-parse_worker_name :
      (s : String) (w : WorkerName)
      → parse_worker_name is_lotus_address s ≡ some w
      → (full_worker_name w ≡ s)
        × (is_lotus_address w.payout_address ≡ true)
        × HasNoDot w.payout_address
        × (bad_suffix w.worker_suffix ≡ false)
  unfolding parse_worker_name full_worker_name
  full_worker_name-parse_worker_name s w e =
      let parts = parts_of s w e in
      (
        ap (λ a. join_dot a w.worker_suffix) (sym (parts.0))
            ∙ ap (join_dot (split_dot s).0) (sym (parts.1))
            ∙ join_dot-split_dot s,
        parts.2,
        subst HasNoDot (parts.0) (split_dot-HasNoDot s),
        parts.3,
      )

  -- A Lotus address without a dot, with a suffix that is left out or is not empty, is parsed
  -- back from the full worker name.
  parse_worker_name-full_worker_name :
      (w : WorkerName)
      → is_lotus_address w.payout_address ≡ true
      → HasNoDot w.payout_address
      → bad_suffix w.worker_suffix ≡ false
      → parse_worker_name is_lotus_address (full_worker_name w) ≡ some w
  unfolding parse_worker_name full_worker_name
  parse_worker_name-full_worker_name w ok no_dot suffix =
      rw (split_dot-join_dot w.payout_address w.worker_suffix no_dot, ok, suffix)
