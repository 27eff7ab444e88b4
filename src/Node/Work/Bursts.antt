-- ===== src/Node/Work/Bursts.antt =====
-- consumer.rs: bursts of changes.
use stratum_server_nng.Base.{
  ℕ, ◌+◌, ◌<◌, ltb, if◌then◌else◌, ◌≡◌, ◌≢◌, refl, ap, ◌∙◌, Bool, true, false, List, [], ◌∷◌, ◌++◌,
  map, arith,
}
use stratum_server_nng.Node.Work.{
  MiningWorkChanged, mining_work_coalesce_ms, Arrival, received, shut, closed, waiting, holding,
  sent_at, sleep_over, coalesce_events,
}

-- A change, when it is received, and the choice of `select!` at a tie.
pub record Change : Type 0 where
  pub at : ℕ
  pub first : Bool
  pub event : MiningWorkChanged

-- A burst: a change, and the ones behind it.
pub record Burst : Type 0 where
  pub start : Change
  pub more : List Change

abbrev last_of : Change → List Change → Change
last_of c [] = c
last_of c (d ∷ ds) = last_of d ds

abbrev pub last : Burst → Change
last b = last_of b.start b.more

-- Each change comes less than 100 ms after the one before it.
abbrev Follows : Change → List Change → Type 0
Follows c [] = Unit
Follows c (d ∷ ds) = (d.at < c.at + mining_work_coalesce_ms) × Follows d ds

abbrev pub IsBurst : Burst → Type 0
IsBurst b = Follows b.start b.more

-- When the first change of bursts is received, and of `next` behind them.
abbrev start_of : List Burst → Burst → ℕ
start_of [] next = next.start.at
start_of (b ∷ bs) next = b.start.at

-- Bursts, with more than 100 ms between the last change of one and the first of the one behind it, which
-- is `next` at the end.
abbrev pub Spaced : List Burst → Burst → Type 0
Spaced [] next = Unit
Spaced (b ∷ bs) next =
    IsBurst b × (((last b).at + mining_work_coalesce_ms < start_of bs next) × Spaced bs next)

abbrev arrival : Change → Arrival
arrival c = received c.at c.first c.event

-- The changes of a burst, and then `rest`.
abbrev pub arrivals : Burst → List Arrival → List Arrival
arrivals b rest = arrival b.start ∷ map arrival b.more ++ rest

abbrev pub all_arrivals : List Burst → List Arrival → List Arrival
all_arrivals [] rest = rest
all_arrivals (b ∷ bs) rest = arrivals b (all_arrivals bs rest)

-- The last change of a burst, 100 ms after it was received.
abbrev pub sent : Burst → ℕ × MiningWorkChanged
sent b = sent_at (last b).event (last b).at

not_over :
    (since at : ℕ) (first : Bool)
    → at < since + mining_work_coalesce_ms
    → sleep_over since at first ≡ false
not_over since at first lt = ground arith

over :
    (since at : ℕ) (first : Bool)
    → since + mining_work_coalesce_ms < at
    → sleep_over since at first ≡ true
over since at first lt = ground arith

held_on :
    (c : Change) (ds : List Change) (rest : List Arrival)
    → Follows c ds
    → coalesce_events (holding c.event c.at) (map arrival ds ++ rest)
      ≡ coalesce_events (holding (last_of c ds).event (last_of c ds).at) rest
unfolding coalesce_events
held_on c [] rest f = refl
held_on c (d ∷ ds) rest f = rw (not_over c.at d.at d.first f.0) (held_on d ds rest f.1)

pause_sends :
    (e : MiningWorkChanged) (since : ℕ) (bs : List Burst) (next : Burst) (rest : List Arrival)
    → since + mining_work_coalesce_ms < start_of bs next
    → coalesce_events (holding e since) (all_arrivals bs (arrivals next rest))
      ≡ sent_at e since ∷ coalesce_events waiting (all_arrivals bs (arrivals next rest))
unfolding coalesce_events
pause_sends e since [] next rest lt = rw (over since next.start.at next.start.first lt) refl
pause_sends e since (b ∷ bs) next rest lt = rw (over since b.start.at b.start.first lt) refl

burst_held :
    (b : Burst) (rest : List Arrival)
    → IsBurst b
    → coalesce_events waiting (arrivals b rest)
      ≡ coalesce_events (holding (last b).event (last b).at) rest
unfolding coalesce_events
burst_held b rest f = held_on b.start b.more rest f

bursts_sent :
    (bs : List Burst) (next : Burst) (rest : List Arrival)
    → Spaced bs next
    → IsBurst next
    → coalesce_events waiting (all_arrivals bs (arrivals next rest))
      ≡ map sent bs ++ coalesce_events (holding (last next).event (last next).at) rest
bursts_sent [] next rest apart f = burst_held next rest f
bursts_sent (b ∷ bs) next rest apart f =
    burst_held b (all_arrivals bs (arrivals next rest)) apart.0
    ∙ pause_sends (last b).event (last b).at bs next rest apart.1.0
    ∙ ap (◌∷◌ (sent b)) (bursts_sent bs next rest apart.1.1 f)

shut_held :
    (e : MiningWorkChanged) (since at : ℕ) (first : Bool) (rest : List Arrival)
    → at ≢ since + mining_work_coalesce_ms
    → coalesce_events (holding e since) (shut at first ∷ rest)
      ≡ (if ltb (since + mining_work_coalesce_ms) at then sent_at e since ∷ [] else [])
unfolding coalesce_events
shut_held e since at first rest ne = ground arith

-- Where each change of a burst comes less than 100 ms after the one before it, however long the
-- burst takes, and more than 100 ms pass between bursts, exactly the last change of every burst
-- is forwarded, 100 ms after it was received, and in order, also where the input is closed
-- behind the last burst; where a shutdown is taken behind the last burst, at another time than
-- the end of its 100 ms, the last change of that burst is forwarded only if the 100 ms are over
-- before the shutdown.
pub coalesce_events-all_arrivals :
    (bs : List Burst) (next : Burst) (at : ℕ) (first : Bool) (rest : List Arrival)
    → Spaced bs next
    → IsBurst next
    → at ≢ (last next).at + mining_work_coalesce_ms
    → (coalesce_events waiting (all_arrivals bs (arrivals next [])) ≡ map sent bs ++ sent next ∷ [])
      × (coalesce_events waiting (all_arrivals bs (arrivals next (closed ∷ [])))
          ≡ map sent bs ++ sent next ∷ [])
      × (coalesce_events waiting (all_arrivals bs (arrivals next (shut at first ∷ rest)))
          ≡ map sent bs
            ++ (if ltb ((last next).at + mining_work_coalesce_ms) at then sent next ∷ [] else []))
unfolding coalesce_events
coalesce_events-all_arrivals bs next at first rest apart f ne = (
  bursts_sent bs next [] apart f,
  bursts_sent bs next (closed ∷ []) apart f,
  bursts_sent bs next (shut at first ∷ rest) apart f
      ∙ ap (λ sends. map sent bs ++ sends)
          (shut_held (last next).event (last next).at at first rest ne),
)
