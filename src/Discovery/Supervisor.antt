-- ===== src/Discovery/Supervisor.antt =====
-- internal/discovery/kubernetes/watch_supervisor.go: the loop that starts the watch again. What each run
-- and each wait come to is an argument; the length of the waits, which are float64, is not modelled.
use mc_router.Prelude.{
  ℕ, ◌+◌, ◌≡◌, ◌≢◌, arith, Bool, true, not, ◌&&◌, ◌||◌, List, [], ◌∷◌, if◌then◌else◌,
}

-- How a run ends: without an error, with one of a cancelled context, or with another.
pub data Outcome : Type 0 where
  finished cancelled fails : Outcome

pub data Sleep : Type 0 where
  slept interrupted sleep_failed : Sleep

-- A run of the watch: whether it synchronised, how it ended, whether the channel `ready` is closed then,
-- and how the wait behind it ends.
pub record Run : Type 0 where
  pub synced : Bool
  pub outcome : Outcome
  pub ready : Bool
  pub sleep : Sleep

pub record State : Type 0 where
  pub attempt : ℕ
  pub initial_sync_seen : Bool

pub data End : Type 0 where
  running stopped failed sleep_error : End

-- The callback of the first synchronisation sets the number of attempts back.
abbrev pub attempt_after : Run → State → ℕ
attempt_after run st = if run.synced then 0 else st.attempt

abbrev pub next_state : Run → State → State
next_state run st = record {
  attempt = attempt_after run st + 1;
  initial_sync_seen = run.synced || st.initial_sync_seen;
}

abbrev pub gives_up : Run → State → Bool
gives_up run st = not run.synced && not st.initial_sync_seen && not run.ready

-- The end, if the loop ends with this run, before it waits.
unfoldable pub before_sleep : Run → State → Outcome → End
before_sleep run st finished = stopped
before_sleep run st cancelled = stopped
before_sleep run st fails = if gives_up run st then failed else running

unfoldable pub after_sleep : Sleep → End
after_sleep slept = running
after_sleep interrupted = stopped
after_sleep sleep_failed = sleep_error

-- One turn of the loop, by what stands in front of the wait and by the wait, with the turns behind it.
unfoldable pub turn : End → End → ℕ → List ℕ × End → List ℕ × End
turn running running attempt (attempts, end) = (attempt ∷ attempts, end)
turn running end attempt rest = (attempt ∷ [], end)
turn end _ attempt rest = ([], end)

-- The numbers of the attempts for which the loop waits, and how it ends; `running` where no more runs
-- have come yet.
unfoldable pub supervise : State → List Run → List ℕ × End
supervise st [] = ([], running)
supervise st (run ∷ runs) =
    turn (before_sleep run st run.outcome) (after_sleep run.sleep) (attempt_after run st + 1)
      (supervise (next_state run st) runs)

-- Run, with what the channel `ready` says at the start.
unfoldable pub start : Bool → List Run → List ℕ × End
start ready runs = supervise (record { attempt = 0; initial_sync_seen = ready }) runs

before_sleep-seen :
    (run : Run) (st : State) (outcome : Outcome)
    → st.initial_sync_seen ≡ true
    → before_sleep run st outcome ≢ failed
unfolding before_sleep
before_sleep-seen run st finished h e = cc
before_sleep-seen run st cancelled h e = cc
before_sleep-seen run st fails h e = ground (arith, h, e)

after_sleep-waits : (s : Sleep) → after_sleep s ≢ failed
unfolding after_sleep
after_sleep-waits slept e = cc
after_sleep-waits interrupted e = cc
after_sleep-waits sleep_failed e = cc

turn-persists :
    (b w : End) (n : ℕ) (rest : List ℕ × End)
    → b ≢ failed
    → w ≢ failed
    → rest.1 ≢ failed
    → (turn b w n rest).1 ≢ failed
unfolding turn
turn-persists running running n (ns, end) p q r = r
turn-persists running stopped n rest p q r = λ e. cc
turn-persists running failed n rest p q r = q
turn-persists running sleep_error n rest p q r = λ e. cc
turn-persists stopped w n rest p q r = λ e. cc
turn-persists failed w n rest p q r = p
turn-persists sleep_error w n rest p q r = λ e. cc

-- Once the routes have been synchronised, no failure of the watch makes the supervisor give up: it ends
-- only where it is stopped or a wait goes wrong.
pub supervise-persists :
    (st : State) (runs : List Run) → st.initial_sync_seen ≡ true → (supervise st runs).1 ≢ failed
unfolding supervise
supervise-persists st [] h = λ e. cc
supervise-persists st (run ∷ runs) h =
    turn-persists (before_sleep run st run.outcome) (after_sleep run.sleep)
      (attempt_after run st + 1) (supervise (next_state run st) runs)
      (before_sleep-seen run st run.outcome h) (after_sleep-waits run.sleep)
      (supervise-persists (next_state run st) runs ground (arith, h))
