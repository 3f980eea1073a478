-- ===== src/Logger/Aggregator.antt =====
-- pkg/logger/terminal.go: what LogAggregator keeps of the batches of messages, and what it displays. The
-- two loops of processBatch are those of one call, with no call of the other worker in between. The order of new routines is that of their
-- messages, one of those in which Go may range over `routineOrderMap`; times appear as the text `elapsed`.
pub mod Processed
use engine_ci.Base.{
  String, ◌⧺◌, Bool, true, false, Option, none, some, List, [], ◌∷◌, ◌++◌, ◌==◌, if◌then◌else◌,
  Dict, lookup, insert, contains, map,
}
use engine_ci.Logger.Message.{LogMessage}
use engine_ci.Logger.Entry.{LogEntry, new_entry, add_message, last5_messages}

pub record LogAggregator : Type 0 where
  pub log_map : Dict LogEntry
  pub routine_order : List String

-- `NewLogAggregator`
abbrev pub new_log_aggregator : LogAggregator
new_log_aggregator = record { log_map = []; routine_order = [] }

-- `Load`, or an entry from the pool
abbrev pub or_new : Option LogEntry → LogEntry
or_new none = new_entry
or_new (some le) = le

abbrev pub mark_done : LogMessage → LogEntry → LogEntry
mark_done m le =
    if m.is_done then record le { is_done = m.is_done; is_failed = m.is_failed } else le

abbrev pub update_entry : LogMessage → LogEntry → LogEntry
update_entry m le = mark_done m (add_message m.message le)

-- The loop of one call of `processBatch` over the messages, while the other worker does nothing.
unfoldable pub store_batch : List LogMessage → Dict LogEntry → Dict LogEntry
store_batch [] logs = logs
store_batch (m ∷ ms) logs =
    store_batch ms (insert m.routine_id (update_entry m (or_new (lookup m.routine_id logs))) logs)

-- Its loop over the routines, under the same condition.
unfoldable pub update_order : List LogMessage → List String → List String
update_order [] order = order
update_order (m ∷ ms) order =
    update_order ms (if contains order m.routine_id then order else order ++ m.routine_id ∷ [])

module _ (elapsed : String → String) where
  abbrev pub indented : String → String
  indented msg = "   " ⧺ msg

  abbrev done_lines : String → LogEntry → List String
  done_lines id le =
      if le.is_done
      then (if le.is_failed
          then ("\u{1b}[31m" ⧺ id ⧺ " (Failed in " ⧺ elapsed id ⧺ ")\u{1b}[0m")
            ∷ map indented (last5_messages le.messages)
          else ("\u{1b}[32m" ⧺ id ⧺ " (Completed in " ⧺ elapsed id ⧺ ")\u{1b}[0m") ∷ [])
      else []

  abbrev running_lines : String → LogEntry → List String
  running_lines id le =
      if le.is_done
      then []
      else ("\u{1b}[90m" ⧺ id ⧺ " " ⧺ elapsed id ⧺ " :\u{1b}[0m") ∷ map indented le.messages

  abbrev lines_of : (String → LogEntry → List String) → String → Option LogEntry → List String
  lines_of f id none = []
  lines_of f id (some le) = f id le

  -- One of the two loops of `updateDisplay`.
  unfoldable pub display :
      (String → LogEntry → List String) → List String → Dict LogEntry → List String
  display f [] logs = []
  display f (id ∷ ids) logs = lines_of f id (lookup id logs) ++ display f ids logs

  -- The messages of the routines that have succeeded are dropped.
  abbrev forget : LogEntry → LogEntry
  forget le = if le.is_done then (if le.is_failed then le else record le { messages = [] }) else le

  abbrev forget_one : String → Option LogEntry → Dict LogEntry → Dict LogEntry
  forget_one id none logs = logs
  forget_one id (some le) logs = insert id (forget le) logs

  unfoldable pub forget_done : List String → Dict LogEntry → Dict LogEntry
  forget_done [] logs = logs
  forget_done (id ∷ ids) logs = forget_done ids (forget_one id (lookup id logs) logs)

  -- `updateDisplay`: the lines that are rendered, and what is kept.
  unfoldable pub update_display : LogAggregator → List String × LogAggregator
  update_display la = (
    "Real-Time Log Aggregation (Concurrent)" ∷ display done_lines la.routine_order la.log_map
        ++ display running_lines la.routine_order la.log_map,
    record la { log_map = forget_done la.routine_order la.log_map },
  )
