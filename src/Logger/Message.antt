-- ===== src/Logger/Message.antt =====
-- pkg/logger/terminal.go: one log message, and `LogAggregator.Copy`. What `bufio.Scanner` does with a
-- line longer than its buffer is left out.
use engine_ci.Base.{
  String, ◌⧺◌, Bool, true, false, Option, none, some, List, [], ◌∷◌, if◌then◌else◌, split,
  trim_suffix, has_text, ◌==◌,
}

pub record LogMessage : Type 0 where
  pub routine_id : String
  pub message : String
  pub is_done : Bool
  pub is_failed : Bool

-- The lines that `bufio.ScanLines` makes of the pieces between newlines.
abbrev pub without_last : List String → List String
without_last [] = []
without_last (l ∷ []) = if l == "" then [] else trim_suffix l "\r" ∷ []
without_last (l ∷ k ∷ ls) = trim_suffix l "\r" ∷ without_last (k ∷ ls)

unfoldable pub scan_lines : String → List String
scan_lines text = without_last (split b'\n' text)

abbrev pub engine_message : String → Bool → LogMessage
engine_message line failed = record {
  routine_id = "[engine-ci]";
  message = line;
  is_done = failed;
  is_failed = failed;
}

-- The loop of `Copy`: the messages that it logs, and its error.
unfoldable pub copy_lines : List String → List LogMessage × Option String
copy_lines [] = ([], none)
copy_lines (line ∷ lines) =
    let rest = copy_lines lines in
    if has_text line "errorDetail"
    then (engine_message line true ∷ [], some ("errorDetail: " ⧺ line))
    else (engine_message line false ∷ rest.0, rest.1)

-- `Copy` of what a reader holds.
unfoldable pub copy : String → List LogMessage × Option String
unfolding copy_lines scan_lines
copy text = copy_lines (scan_lines text)
