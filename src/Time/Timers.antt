-- ===== src/Time/Timers.antt =====
-- kernel/src/time/mod.rs: over any sequence of polls each timer fires once, at the first poll that
-- is not before its wake tick.
use ristux.Common.{
  ℕ, ◌+◌, ◌≡◌, refl, sym, ap, ◌∙◌, Bool, ◌&&◌, ◌||◌, not, leb, any, if◌then◌else◌, List, [], ◌∷◌,
  map, arith,
}
use ristux.Time.{SleepTimer, TimerQueue, poll, poll_timers, poll_timer}

-- Some poll is at or after the timer's wake tick.
unfoldable pub reached : List ℕ → SleepTimer → Bool
reached nows t = any (λ now. leb t.wake_tick now) nows

unfoldable pub due_timer : List ℕ → SleepTimer → ℕ
due_timer nows t = if not t.fired && reached nows t then 1 else 0

-- How many timers have not fired yet and are reached by the polls.
unfoldable pub due : List ℕ → List SleepTimer → ℕ
due nows [] = 0
due nows (t ∷ ts) = due_timer nows t + due nows ts

unfoldable pub mark : List ℕ → SleepTimer → SleepTimer
mark nows t = record t { fired = t.fired || reached nows t }

unfoldable pub poll_all : List ℕ → TimerQueue → ℕ × TimerQueue
poll_all [] q = (0, q)
poll_all (now ∷ nows) q =
    let (fired, r) = poll q now in let (later, u) = poll_all nows r in (fired + later, u)

poll_timer-due :
    (now : ℕ) (nows : List ℕ) (t : SleepTimer)
    → due_timer (now ∷ nows) t ≡ (poll_timer now t).0 + due_timer nows (poll_timer now t).1
unfolding due_timer reached poll_timer
poll_timer-due now nows t = ground arith

poll_timer-mark :
    (now : ℕ) (nows : List ℕ) (t : SleepTimer)
    → mark nows (poll_timer now t).1 ≡ mark (now ∷ nows) t
unfolding mark reached poll_timer
poll_timer-mark now nows t = ground arith

poll_timers-due :
    (now : ℕ) (nows : List ℕ) (ts : List SleepTimer)
    → due (now ∷ nows) ts ≡ (poll_timers now ts).0 + due nows (poll_timers now ts).1
unfolding due poll_timers
poll_timers-due now nows [] = refl
poll_timers-due now nows (t ∷ ts) =
    omega (arith, poll_timer-due now nows t, poll_timers-due now nows ts)

poll_timers-mark :
    (now : ℕ) (nows : List ℕ) (ts : List SleepTimer)
    → map (mark nows) (poll_timers now ts).1 ≡ map (mark (now ∷ nows)) ts
unfolding poll_timers
poll_timers-mark now nows [] = refl
poll_timers-mark now nows (t ∷ ts) =
    rw (poll_timer-mark now nows t, poll_timers-mark now nows ts) refl

map-mark_none : (ts : List SleepTimer) → map (mark []) ts ≡ ts
unfolding mark reached
map-mark_none [] = refl
map-mark_none (t ∷ ts) = rw (map-mark_none ts) (ap (λ u. u ∷ ts) (ground arith))

due-none : (ts : List SleepTimer) → due [] ts ≡ 0
unfolding due due_timer reached
due-none [] = refl
due-none (t ∷ ts) = ground (arith, due-none ts)

-- Polling a queue at any sequence of ticks reports as many wake-ups as there are timers that had not
-- fired and whose wake tick some of these polls reaches, so none early and none twice; and exactly
-- these timers are fired afterwards, beside those that were.
pub poll_all_lem :
    (nows : List ℕ) (q : TimerQueue)
    → ((poll_all nows q).0 ≡ due nows q.timers)
      × ((poll_all nows q).1.timers ≡ map (mark nows) q.timers)
unfolding poll_all poll
poll_all_lem [] q = (omega (arith, due-none q.timers), sym (map-mark_none q.timers))
poll_all_lem (now ∷ nows) q =
    let (sum, marked) = poll_all_lem nows (poll q now).1 in
    (
      omega (arith, sum, poll_timers-due now nows q.timers),
      marked ∙ poll_timers-mark now nows q.timers,
    )
