-- ===== src/Time/Stamps.antt =====
-- kernel/src/time/mod.rs: the timestamps of files are strictly increasing.
use ristux.Common.{ℕ, suc, ◌+◌, ◌≤◌, ◌<◌, ◌≡◌, List, [], ◌∷◌, All, length, arith, u64_max}
use ristux.Time.{Timekeeper, filesystem_timestamp, unix_time}

-- The timestamps that calls at these ticks return.
unfoldable pub stamps : List ℕ → Timekeeper → List ℕ
stamps [] state = []
stamps (now ∷ nows) state =
    let after = filesystem_timestamp now state in after.file_timestamp_counter ∷ stamps nows after

-- Each number of the list is greater than the one before, the first than `low`.
unfoldable pub IsIncreasing : ℕ → List ℕ → Type 0
IsIncreasing low [] = Unit
IsIncreasing low (x ∷ xs) = (low < x) × IsIncreasing x xs

filesystem_timestamp_lem :
    (now bound : ℕ) (state : Timekeeper)
    → state.file_timestamp_counter ≤ bound
    → unix_time now state ≤ bound
    → bound < u64_max
    → (state.file_timestamp_counter < (filesystem_timestamp now state).file_timestamp_counter)
      × (unix_time now state ≤ (filesystem_timestamp now state).file_timestamp_counter)
      × ((filesystem_timestamp now state).file_timestamp_counter ≤ suc bound)
unfolding filesystem_timestamp unix_time
filesystem_timestamp_lem now bound state c u b = (ground arith, ground arith, ground arith)

filesystem_timestamp-unix_time :
    (now later : ℕ) (state : Timekeeper)
    → unix_time later (filesystem_timestamp now state) ≡ unix_time later state
unfolding filesystem_timestamp unix_time
filesystem_timestamp-unix_time now later state = ground arith

later_unix_time :
    (now bound : ℕ) (state : Timekeeper) (nows : List ℕ)
    → All (λ later. unix_time later state ≤ bound) nows
    → All (λ later. unix_time later (filesystem_timestamp now state) ≤ suc bound) nows
later_unix_time now bound state [] u = u
later_unix_time now bound state (later ∷ nows) u = (
  omega (arith, filesystem_timestamp-unix_time now later state, u.0),
  later_unix_time now bound state nows u.1,
)

-- If a bound on the counter and on the wall clock at these ticks leaves room below 2 ^ 64 for one step
-- per call, the timestamps of successive calls are strictly increasing, also within one second and
-- when the tick counter falls back.
pub stamps-IsIncreasing :
    (nows : List ℕ) (bound : ℕ) (state : Timekeeper)
    → All (λ now. unix_time now state ≤ bound) nows
    → state.file_timestamp_counter ≤ bound
    → bound + length nows ≤ u64_max
    → IsIncreasing state.file_timestamp_counter (stamps nows state)
unfolding IsIncreasing stamps
stamps-IsIncreasing [] bound state u c b = tt
stamps-IsIncreasing (now ∷ nows) bound state u c b =
    let (more, _, most) = filesystem_timestamp_lem now bound state c u.0 (omega arith) in
    (
      more,
      stamps-IsIncreasing nows (suc bound) (filesystem_timestamp now state)
          (later_unix_time now bound state nows u.1) most (omega arith),
    )
