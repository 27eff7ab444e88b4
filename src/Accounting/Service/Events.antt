-- ===== src/Accounting/Service/Events.antt =====
-- accounting/accounting_event_repository.rs: the queries on the events.
use stratum_server_nng.Base.{
  ◌>>=◌, ℕ, suc, ◌+◌, String, ◌≡◌, refl, ap, ◌∙◌, inl, inr, Bool, true, false, Option, none, some,
  List, [], ◌∷◌, ◌++◌, if◌then◌else◌, str_eq, Bool-cases, length, take, drop, count_if, filter_if,
  count_if-append,
}
use stratum_server_nng.Int.{ℤ, pos, negsuc, leb_ℤ}
use mathlib.Core.List.{append-nil}
use stratum_server_nng.Accounting.Shares.Queries.{newest_first}
use stratum_server_nng.Accounting.Service.{Db, AccountingEvent, record_event}

-- `LIMIT ?2 OFFSET ?3`: a negative limit is none, and a negative offset is 0.
abbrev sql_limit : {A : Type 0} → ℤ → List A → List A
sql_limit (pos n) xs = take n xs
sql_limit (negsuc n) xs = xs

abbrev sql_offset : {A : Type 0} → ℤ → List A → List A
sql_offset (pos n) xs = drop n xs
sql_offset (negsuc n) xs = xs

abbrev has_type : String → AccountingEvent → Bool
has_type event_type e = str_eq e.event_type event_type

-- The assertion on the height of a row that is read. The ones on the two unsigned columns hold by
-- their type.
abbrev height_not_negative : Option ℤ → Bool
height_not_negative none = true
height_not_negative (some h) = leb_ℤ (pos 0) h

unfoldable pub is_readable : AccountingEvent → Bool
is_readable e = height_not_negative e.height

-- The rows that are read, one by one; `none` is a panic.
abbrev read_all : List AccountingEvent → Option (List AccountingEvent)
read_all [] = some []
read_all (e ∷ es) =
    let rest = read_all es in if is_readable e then (do read ← rest; some (e ∷ read)) else none

-- `list_by_type`, most recent first.
unfoldable pub list_by_type : Db → String → ℤ → ℤ → Option (List AccountingEvent)
unfolding is_readable
list_by_type db event_type limit offset =
    read_all (
      sql_limit limit
        (sql_offset offset (newest_first (filter_if (has_type event_type) db.events))))

-- `count_by_type`.
unfoldable pub count_by_type : Db → String → ℕ
count_by_type db event_type = count_if (has_type event_type) db.events

-- The row of an event that is recorded.
abbrev pub recorded : Db → AccountingEvent → AccountingEvent
recorded db e = record e { id = length db.events + 1 }

filter-append :
    (p : AccountingEvent → Bool) (xs : List AccountingEvent) (e : AccountingEvent)
    → filter_if p (xs ++ e ∷ []) ≡ filter_if p xs ++ (if p e then e ∷ [] else [])
filter-append p [] e = refl
filter-append p (x ∷ xs) e =
    let rest = filter-append p xs e in
    elim (Bool-cases (p x)) [ inl kept ↦ rw kept (ap (◌∷◌ x) rest) | inr dropped ↦ rw dropped rest ]

newest_first-append :
    (xs : List AccountingEvent) (e : AccountingEvent)
    → newest_first (xs ++ e ∷ []) ≡ e ∷ newest_first xs
newest_first-append [] e = refl
newest_first-append (x ∷ xs) e = ap (λ ys. ys ++ x ∷ []) (newest_first-append xs e)

first_listed :
    (matches : Bool) (limit : ℕ) (xs : List AccountingEvent) (e : AccountingEvent)
    → take (suc limit) (newest_first (xs ++ (if matches then e ∷ [] else [])))
      ≡ (if matches then e ∷ take limit (newest_first xs) else take (suc limit) (newest_first xs))
first_listed true limit xs e = ap (take (suc limit)) (newest_first-append xs e)
first_listed false limit xs e = ap (λ ys. take (suc limit) (newest_first ys)) (append-nil xs)

read_first :
    (matches : Bool) (e : AccountingEvent) (xs ys : List AccountingEvent)
    → read_all (if matches then e ∷ xs else ys) ≡ (
        if matches
        then (if is_readable e then (do read ← read_all xs; some (e ∷ read)) else none)
        else read_all ys)
read_first true e xs ys = refl
read_first false e xs ys = refl

-- An event that is recorded is the first one listed for its type, before the earlier ones in
-- their order, and counts once; if its height is negative the listing of its type panics. For
-- any other type the list and the count stay as they were.
pub record_event-list_by_type :
    (db : Db) (e : AccountingEvent) (event_type : String) (limit : ℕ)
    → (list_by_type (record_event db e) event_type (pos (suc limit)) (pos 0) ≡ (
        if str_eq e.event_type event_type
        then (if is_readable e
            then (do
              rest ← list_by_type db event_type (pos limit) (pos 0)
              some (recorded db e ∷ rest))
            else none)
        else list_by_type db event_type (pos (suc limit)) (pos 0)))
      × (count_by_type (record_event db e) event_type
          ≡ count_by_type db event_type + (if str_eq e.event_type event_type then 1 else 0))
unfolding list_by_type count_by_type record_event
record_event-list_by_type db e event_type limit = (
  ap (λ xs. read_all (take (suc limit) (newest_first xs)))
        (filter-append (has_type event_type) db.events (recorded db e))
      ∙ ap read_all (
          first_listed (str_eq e.event_type event_type) limit
            (filter_if (has_type event_type) db.events) (recorded db e))
      ∙ read_first (str_eq e.event_type event_type) (recorded db e) _ _,
  count_if-append (has_type event_type) db.events (recorded db e ∷ []),
)
