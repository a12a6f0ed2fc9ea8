-- ===== src/Common/Clock.antt =====
-- The clock of a simulation (crates/common/src/clock.rs): time moves only when it is told to.
-- Its atomic counter is read and written by one thread here, and `fetch_add` wraps.
use catalyst_svm.Prelude.{ℕ, ◌+◌, wrap64}

pub record VirtualClock : Type 0 where
  pub current_ms : ℕ

-- `VirtualClock::new`
abbrev pub new_clock : ℕ → VirtualClock
new_clock start_ms = record { current_ms = start_ms }

abbrev pub set_ms : ℕ → VirtualClock → VirtualClock
set_ms ms c = record c { current_ms = ms }

abbrev pub now_ms : VirtualClock → ℕ
now_ms c = c.current_ms

abbrev pub advance : ℕ → VirtualClock → VirtualClock
advance ms c = record c { current_ms = wrap64 (c.current_ms + ms) }

abbrev pub sleep_ms : ℕ → VirtualClock → VirtualClock
sleep_ms ms c = advance ms c
