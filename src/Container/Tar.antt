-- ===== src/Container/Tar.antt =====
-- pkg/container/container.go: TarDir, TarDirSequential and TarDirConcurrent. A source is the list of
-- what `fs.WalkDir` visits, in its order; an archive is the list of its headers and contents. Writing
-- into a buffer cannot fail. The pools of buffers and their sizes are left out.
pub mod Concurrent
pub mod Indexed
pub mod Sound
pub mod Kept
pub mod Same
pub mod Ends
use engine_ci.Base.{
  ℕ, zero, suc, ◌+◌, eqb, String, Bool, true, false, ◌||◌, Option, none, some, List, [], ◌∷◌, ◌++◌,
  ◌≡◌, ltb, ◌==◌, if◌then◌else◌, length,
}
use engine_ci.Cri.Manager.{Result, ok, err, crash}

-- What a call that cannot panic answers.
pub data Attempt (A : Type 0) : Type 0 where
  done : A → Attempt A
  failed : String → Attempt A

-- One visit: `size` is what `d.Info` answers, `header` what `tar.FileInfoHeader` makes of it, and
-- `content` what reading answers once the file could be opened.
pub record Entry : Type 0 where
  pub path : String
  pub visit_error : Option String
  pub is_dir : Bool
  pub size : Attempt ℕ
  pub header : Attempt String
  pub open_error : Option String
  pub content : Attempt String

abbrev pub Archive : Type 0
Archive = List (String × String)

infixr 20 ◌+>◌
abbrev pub ◌+>◌ : String × String → Result Archive → Result Archive
part +> ok archive = ok (part ∷ archive)
part +> err e = err e
part +> crash = crash

abbrev pub with_content : String → Attempt String → Result Archive → Result Archive
with_content header (done text) rest = (header, text) +> rest
with_content header (failed e) rest = err e

abbrev pub with_open : String → Option String → Attempt String → Result Archive → Result Archive
with_open header (some e) content rest = err e
with_open header none content rest = with_content header content rest

abbrev pub with_header :
    Attempt String → Option String → Attempt String → Result Archive → Result Archive
with_header (done header) open_error content rest = with_open header open_error content rest
with_header (failed e) open_error content rest = err e

abbrev pub with_info : Attempt ℕ → Result Archive → Result Archive
with_info (done n) r = r
with_info (failed e) r = err e

abbrev pub with_visit : Option String → Result Archive → Result Archive
with_visit none r = r
with_visit (some e) r = err e

-- `TarDirSequential`
unfoldable pub tar_dir_sequential : List Entry → Result Archive
tar_dir_sequential [] = ok []
tar_dir_sequential (f ∷ fs) =
    let rest = tar_dir_sequential fs in
    with_visit f.visit_error (
      if f.is_dir
      then rest
      else with_info f.size (with_header f.header f.open_error f.content rest))

-- What a goroutine sends: an error or the header and the content.
abbrev pub Processed : Type 0
Processed = Attempt (String × String)

abbrev pub after_header : Attempt String → String → Processed
after_header (done header) text = done (header, text)
after_header (failed e) text = failed e

-- The slice that collects the content is nil unless something was read.
abbrev pub after_read : Attempt String → Attempt String → Processed
after_read (done text) header =
    if text == "" then failed "failed to read file" else after_header header text
after_read (failed e) header = failed "failed to read file"

abbrev pub after_open : Option String → Attempt String → Attempt String → Processed
after_open (some e) content header = failed e
after_open none content header = after_read content header

unfoldable pub process : Entry → Processed
process f = after_open f.open_error f.content f.header

abbrev pub add_file : Entry → Result (List Entry) → Result (List Entry)
add_file f (ok files) = ok (f ∷ files)
add_file f (err e) = err e
add_file f crash = crash

abbrev pub collect_file : Entry → Attempt ℕ → Result (List Entry) → Result (List Entry)
collect_file f (done n) rest = add_file f rest
collect_file f (failed e) rest = err e

abbrev pub visit_then : Option String → Result (List Entry) → Result (List Entry)
visit_then none r = r
visit_then (some e) r = err e

-- The walk of TarDirConcurrent, which collects the files.
unfoldable pub collect_files : List Entry → Result (List Entry)
collect_files [] = ok []
collect_files (f ∷ fs) =
    let rest = collect_files fs in
    visit_then f.visit_error (if f.is_dir then rest else collect_file f f.size rest)

abbrev pub sizes : List Entry → ℕ × ℕ
sizes [] = (0, 0)
sizes (f ∷ fs) =
    let (count, total) = sizes fs in
    if f.is_dir then (count, total) else (suc count, size_of f.size + total)
  where
    size_of : Attempt ℕ → ℕ
    size_of (done n) = n
    size_of (failed e) = 0

-- The test of TarDir: more than 20 files, or more than 10 MB.
unfoldable pub is_concurrent : List Entry → Bool
is_concurrent fs = ltb 20 (sizes fs).0 || ltb 10485760 (sizes fs).1
