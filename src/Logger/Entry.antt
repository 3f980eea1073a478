-- ===== src/Logger/Entry.antt =====
-- pkg/logger/terminal.go: a LogEntry, which keeps the last lines of a routine. Its times and its lock are
-- left out.
pub mod Last
use engine_ci.Base.{
  ℕ, String, Bool, true, false, List, [], ◌∷◌, ◌++◌, ◌-◌, if◌then◌else◌, length, take, drop, leb,
}

pub record LogEntry : Type 0 where
  pub messages : List String
  pub is_done : Bool
  pub is_failed : Bool

-- A LogEntry from the pool, as it is reset.
abbrev pub new_entry : LogEntry
new_entry = record { messages = []; is_done = false; is_failed = false }

abbrev pub max_log_lines : ℕ
max_log_lines = 5

-- `copy(ms, ms[1:])`: every line moves one place forward, and the last one stays where it is too.
abbrev pub shifted : List String → List String
shifted ms = drop 1 ms ++ drop (length ms - 1) ms

abbrev pub make_room : List String → List String
make_room ms = if leb max_log_lines (length ms) then take (max_log_lines - 1) (shifted ms) else ms

-- `addMessage`
unfoldable pub add_message : String → LogEntry → LogEntry
add_message msg le = record le { messages = make_room le.messages ++ msg ∷ [] }

-- `last5Messages`
unfoldable pub last5_messages : List String → List String
last5_messages ms = if leb (length ms) 5 then ms else drop (length ms - 5) ms
