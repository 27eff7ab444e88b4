-- ===== src/Stratum/Server/Miners.antt =====
-- stratum_protocol/server.rs, `run`: the accept loop with its two counters, as steps of the server and
-- of the tasks that it spawns. `spawned` counts the tasks that have not counted themselves yet,
-- `handling` those inside of `handle_connection`, and `lost` those that panicked there. The counter of
-- sessions is a u64, which wraps around only behind 2 ^ 64 connections.
use stratum_server_nng.Base.{ℕ, suc, ◌+◌, ◌-◌, ◌%◌, ◌^◌, ◌≤◌, ◌<◌, ◌≡◌, refl, arith}

pub record Counters : Type 0 where
  pub session_counter : ℕ
  pub connected_miners : ℕ
  pub spawned : ℕ
  pub handling : ℕ
  pub lost : ℕ

-- A connection is accepted.
unfoldable pub on_accept : Counters → Counters
on_accept s = record s { session_counter = suc s.session_counter; spawned = suc s.spawned }

-- A task counts its miner and enters the handler.
unfoldable pub on_start : ℕ → Counters → Counters
on_start waiting s = record s {
  connected_miners = suc s.connected_miners;
  spawned = waiting;
  handling = suc s.handling;
}

-- The handler returns, with or without an error, and the task takes its miner off the count, which is
-- a u64.
unfoldable pub on_return : ℕ → Counters → Counters
on_return running s = record s {
  connected_miners = (s.connected_miners + (2 ^ 64 - 1)) % 2 ^ 64;
  handling = running;
}

-- The handler panics, and the task is gone.
unfoldable pub on_panic : ℕ → Counters → Counters
on_panic running s = record s { handling = running; lost = suc s.lost }

pub data Step : Counters → Counters → Type 0 where
  accepted : {s : Counters} → Step s (on_accept s)
  accept_failed : {s : Counters} → Step s s
  started : {s : Counters} (waiting : ℕ) → s.spawned ≡ suc waiting → Step s (on_start waiting s)
  returned : {s : Counters} (running : ℕ) → s.handling ≡ suc running → Step s (on_return running s)
  panicked : {s : Counters} (running : ℕ) → s.handling ≡ suc running → Step s (on_panic running s)

abbrev pub fresh : Counters
fresh = record { session_counter = 0; connected_miners = 0; spawned = 0; handling = 0; lost = 0 }

-- The states that the server reaches.
pub data Reached : Counters → Type 0 where
  at_start : Reached fresh
  then_step : {s t : Counters} → Reached s → Step s t → Reached t

-- What every reachable state satisfies.
abbrev Inv : Counters → Type 0
Inv s =
    (s.spawned + s.handling + s.lost ≤ s.session_counter)
    × (s.session_counter < 2 ^ 64 → s.connected_miners ≡ s.handling + s.lost)

back :
    (n m : ℕ)
    → n ≡ suc m
    → n < 18446744073709551616
    → (n + 18446744073709551615) % 18446744073709551616 ≡ m
back n m e h = omega arith

Step-Inv : {s t : Counters} → Step s t → Inv s → Inv t
unfolding on_accept on_start on_return on_panic
Step-Inv accepted (room, counted) = (omega arith, λ h. counted (omega arith))
Step-Inv accept_failed i = i
Step-Inv (started waiting e) (room, counted) = (omega arith, λ h. let c = counted h in omega arith)
Step-Inv {s} (returned running e) (room, counted) = (
  omega arith,
  λ h. let c = counted h in back s.connected_miners (running + s.lost) (omega arith) (omega arith),
)
Step-Inv (panicked running e) (room, counted) = (omega arith, λ h. let c = counted h in omega arith)

Reached-Inv : {s : Counters} → Reached s → Inv s
Reached-Inv at_start = (omega arith, λ h. refl)
Reached-Inv (then_step r t) = Step-Inv t (Reached-Inv r)

-- In every reachable state in which fewer than 2^64 connections have been accepted, the count of
-- connected miners is the number of handlers that run and of those that have panicked.
pub connected_miners-Reached :
    {s : Counters}
    → Reached s
    → s.session_counter < 2 ^ 64
    → s.connected_miners ≡ s.handling + s.lost
connected_miners-Reached r h = (Reached-Inv r).1 h
