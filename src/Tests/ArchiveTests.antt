-- ===== src/Tests/ArchiveTests.antt =====
-- Archives of a source folder.
use engine_ci.Base.{String, true, false, none, List, [], ◌∷◌, ◌≡◌, ◌⊎◌, refl, arith}
use engine_ci.Cri.Manager.{ok, err}
use engine_ci.Container.Tar.{Entry, done, failed, collect_files, process, tar_dir_sequential}
use engine_ci.Container.Tar.Concurrent.{
  starting, reading, ending, Collecting, store, initial, Reach, here, next, launch, acquire,
  pass_by, send, release, leave, close, receive, finish, Ended, drained,
}
use engine_ci.Container.Tar.Ends.{tar_ends}
use engine_ci.Container.Tar.Indexed.{processed}
use engine_ci.Container.Tar.Same.{all_done, finish-sequential}

abbrev file : String → String → Entry
file name text = record {
  path = name;
  visit_error = none;
  is_dir = false;
  size = done 1;
  header = done name;
  open_error = none;
  content = done text;
}

abbrev folder : Entry
folder = record (file "." "") { is_dir = true }

abbrev a_file : Entry
a_file = file "a" "x"

abbrev b_file : Entry
b_file = file "b" "y"

abbrev two_files : List Entry
two_files = a_file ∷ b_file ∷ []

abbrev both_started : Collecting
both_started = record {
  rest = [];
  running = starting 1 b_file ∷ starting 0 a_file ∷ [];
  tokens = 0;
  wait_group = 2;
  result_chan = [];
  closed = false;
  results = λ i. none;
  failure = none;
}

abbrev both_sent : Collecting
both_sent = record both_started {
  running = ending true ∷ ending false ∷ [];
  tokens = 1;
  result_chan = (1, done ("b", "y")) ∷ (0, done ("a", "x")) ∷ [];
}

abbrev all_received : Collecting
all_received = record both_started {
  running = [];
  wait_group = 0;
  closed = true;
  results = store 0 ("a", "x") (store 1 ("b", "y") (λ i. none));
}

-- One goroutine holds the only token, and the other one goes on without.
start_run : Reach 1 2 (initial two_files) both_started
unfolding initial
start_run = next (next here (launch _ ((1, b_file) ∷ []) 0 a_file refl)) (launch _ [] 1 b_file refl)

send_run : Reach 1 2 (initial two_files) both_sent
unfolding process
send_run =
    next
      (next
        (next (next start_run (acquire _ [] (starting 0 a_file ∷ []) 1 b_file refl (omega arith)))
          (pass_by _ (reading true 1 b_file ∷ []) [] 0 a_file refl (omega arith)))
        (send _ [] (reading false 0 a_file ∷ []) true 1 b_file refl (omega arith)))
      (send _ (ending true ∷ []) [] false 0 a_file refl (omega arith))

leave_run :
    Reach 1 2 (initial two_files) (record both_sent { running = []; tokens = 0; wait_group = 0 })
leave_run =
    next
      (next (next send_run (release _ [] (ending false ∷ []) refl (omega arith)))
        (leave _ [] (ending false ∷ []) refl))
      (leave _ [] [] refl)

-- The second file is received before the first one.
receive_run : Reach 1 2 (initial two_files) all_received
receive_run =
    next
      (next (next leave_run (close _ refl refl refl))
        (receive _ ((0, done ("a", "x")) ∷ []) 1 ("b", "y") refl refl refl))
      (receive _ [] 0 ("a", "x") refl refl refl)

collected : collect_files (folder ∷ a_file ∷ b_file ∷ []) ≡ ok two_files
unfolding collect_files
collected = refl

finish-sequential_example :
    ((all_done (processed two_files) ≡ true)
      × (finish two_files all_received ≡ tar_dir_sequential (folder ∷ a_file ∷ b_file ∷ [])))
    ⊎ ((all_done (processed two_files) ≡ false)
        × ((e : String) × (finish two_files all_received ≡ err e)))
finish-sequential_example =
    finish-sequential (folder ∷ a_file ∷ b_file ∷ []) collected 1 receive_run
      (drained refl refl refl)

-- An empty file is archived by the sequential walk, and an error for the concurrent one.
empty_file :
    (tar_dir_sequential (file "e" "" ∷ []) ≡ ok (("e", "") ∷ []))
    × (process (file "e" "") ≡ failed "failed to read file")
unfolding tar_dir_sequential process
empty_file = (refl, refl)

tar_ends_example : (u : Collecting) × Reach 1 2 both_sent u × Ended u
tar_ends_example = tar_ends 1 two_files both_sent send_run
