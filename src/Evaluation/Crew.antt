-- ===== src/Evaluation/Crew.antt =====
-- The threads of one run of an evaluation program, each in `thread_job`, on one object of a class of
-- snzi.hpp: their accesses interleaved, with what the clock and `flag` tell each of them.
pub mod Placed
pub mod Follows
pub mod Ends
pub mod Programs
pub mod Totals
pub mod Queries
pub mod Costs
pub mod Whole
pub mod Schedule
use scalable_non_zero_indica.Base.{
  ℕ, ◌+◌, ◌*◌, ◌<◌, List, [], ◌∷◌, ◌++◌, Bool, true, false, ltb, if◌then◌else◌, add64, update,
}
use scalable_non_zero_indica.Node.{arrive, depart}
use scalable_non_zero_indica.Machine.{Site, invoke, access}
use scalable_non_zero_indica.Class.{SnziClass}
use scalable_non_zero_indica.Evaluation.{Call, arrives, departs, queries, Watch, duration}

-- Where a thread stands in `thread_job`, with its `end_time`: before its first reading of the clock,
-- in the loop on `flag`, before a test of the clock, in `Arrive`, in `Depart`, at its end.
pub data Stage : Type 0 where
  starting : Stage
  waiting checking arriving departing : (end_time : ℕ) → Stage
  ended : Stage

-- `own` is what the thread has of the object: its place in a call, and `cont`. `watch` and `calls`
-- are history, which no step reads: what it has been told, and what it has called.
pub record Worker (c : SnziClass) : Type 0 where
  pub stage : Stage
  pub own : c.Thread
  pub visits : ℕ
  pub watch : Watch
  pub calls : List Call

abbrev pub recruit : (c : SnziClass) → Worker c
recruit c = record {
  stage = starting;
  own = c.newcomer;
  visits = 0;
  watch = record { began = 0; flags = []; readings = [] };
  calls = [];
}

pub record Crew (c : SnziClass) : Type 0 where
  pub flag : Bool
  pub shared : c.Shared
  pub workers : ℕ → Worker c

module _ (c : SnziClass) (tree : Site) (second : ℕ) where
  abbrev pub reads : ℕ → Watch → Watch
  reads now watch = record watch { readings = watch.readings ++ now ∷ [] }

  abbrev pub loads : Bool → Watch → Watch
  loads flag watch = record watch { flags = watch.flags ++ flag ∷ [] }

  -- One step of `thread_job` by thread `i`: a reading of the clock, which is at `now`, a load of
  -- `flag`, or an access of the object, which may fail for no reason. A call of the object that has
  -- returned goes on with the next line.
  unfoldable pub work : ℕ → ℕ → Bool → Bool → c.Shared → Worker c → Stage → c.Shared × Worker c
  work i now spurious flag m w starting = (
    m,
    record w { stage = waiting (now + duration * second); watch = record w.watch { began = now } },
  )
  work i now spurious flag m w (waiting end_time) =
      if flag
      then (m, record w { stage = checking end_time; visits = 0; watch = loads flag w.watch })
      else (m, record w { stage = waiting end_time; watch = loads flag w.watch })
  work i now spurious flag m w (checking end_time) =
      let (m', th) = c.react tree i (invoke arrive) m w.own in
      if ltb now end_time
      then (
        m',
        record w {
          stage = arriving end_time;
          own = th;
          watch = reads now w.watch;
          calls = w.calls ++ arrives ∷ [];
        },
      )
      else (m, record w { stage = ended; watch = reads now w.watch })
  work i now spurious flag m w (arriving end_time) =
      let (m', th) = c.react tree i (invoke depart) m w.own in
      let (m'', th') = c.react tree i (access spurious) m w.own in
      if c.is_idle w.own
      then (m', record w { stage = departing end_time; own = th; calls = w.calls ++ departs ∷ [] })
      else (m'', record w { stage = arriving end_time; own = th' })
  work i now spurious flag m w (departing end_time) =
      let (m', th) = c.react tree i (access spurious) m w.own in
      if c.is_idle w.own
      then (
        m,
        record w {
          stage = checking end_time;
          visits = add64 w.visits 1;
          calls = w.calls ++ queries ∷ [];
        },
      )
      else (m', record w { stage = departing end_time; own = th })
  work i now spurious flag m w ended = (m, record w { stage = ended })

  unfoldable pub crew_step : ℕ → ℕ → Bool → Crew c → Crew c
  crew_step i now spurious s =
      let w = s.workers i in
      let (m, w') = work i now spurious s.flag s.shared w w.stage in
      record s { shared = m; workers = update s.workers i w' }

  -- The states of a run with threads 0 to n - 1, after any interleaving; at some point the main
  -- thread sets `flag`.
  pub data CrewReach (n : ℕ) : Crew c → Type 0 where
    start : CrewReach n (record { flag = false; shared = c.fresh; workers = λ _. recruit c })
    raises : {s : Crew c} → CrewReach n s → CrewReach n (record s { flag = true })
    works :
        {s : Crew c} (i now : ℕ) (spurious : Bool)
        → i < n
        → CrewReach n s
        → CrewReach n (crew_step i now spurious s)
