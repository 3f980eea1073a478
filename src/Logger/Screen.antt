-- ===== src/Logger/Screen.antt =====
-- pkg/logger/altscreen.go, and ResettableOnce of pkg/logger/terminal.go. `out` is what was written to the
-- terminal; signals are left out.
use engine_ci.Base.{
  String, ◌⧺◌, Bool, true, false, List, [], ◌∷◌, ◌≡◌, refl, arith, if◌then◌else◌, ◌∙◌,
}

pub record AltScreen : Type 0 where
  pub out : String
  pub last_frame : List String
  pub enabled : Bool

abbrev pub alt_enter : String
alt_enter = "\u{1b}[?1049h\u{1b}[H"

abbrev pub alt_exit : String
alt_exit = "\u{1b}[?1049l"

abbrev pub hide_cursor : String
hide_cursor = "\u{1b}[?25l"

abbrev pub show_cursor : String
show_cursor = "\u{1b}[?25h"

-- `NewAlt`
abbrev pub new_alt : AltScreen
new_alt = record { out = ""; last_frame = []; enabled = false }

unfoldable pub enter : Bool → AltScreen → AltScreen
enter is_tty a =
    if is_tty then record a { out = a.out ⧺ alt_enter ⧺ hide_cursor; enabled = true } else a

-- Each line, with what is written before it.
unfoldable pub print_lines : String → List String → String
print_lines before [] = ""
print_lines before (l ∷ ls) = before ⧺ l ⧺ "\n" ⧺ print_lines before ls

unfoldable pub exit : AltScreen → AltScreen
exit a =
    if a.enabled
    then record a {
      out = a.out ⧺ show_cursor ⧺ alt_exit ⧺ print_lines "" a.last_frame ⧺ show_cursor;
      enabled = false;
    }
    else a

unfoldable pub render : List String → AltScreen → AltScreen
render lines a =
    if a.enabled
    then record a {
      out = a.out ⧺ "\u{1b}[H\u{1b}[2J" ⧺ print_lines "\u{1b}[2K" lines;
      last_frame = lines;
    }
    else a

-- The frames that are rendered one after the other.
abbrev pub render_all : List (List String) → AltScreen → AltScreen
render_all [] a = a
render_all (f ∷ fs) a = render_all fs (render f a)

abbrev pub last_of : List String → List (List String) → List String
last_of old [] = old
last_of old (f ∷ fs) = last_of f fs

render_all-last :
    (fs : List (List String)) (a : AltScreen)
    → a.enabled ≡ true
    → ((render_all fs a).last_frame ≡ last_of a.last_frame fs) × ((render_all fs a).enabled ≡ true)
unfolding render
render_all-last [] a e = (refl, e)
render_all-last (f ∷ fs) a e =
    let rendered = render_all-last fs (render f a) (ground (arith, e)) in
    (rendered.0 ∙ ground (arith, e), rendered.1)

-- Leaving the screen prints the last frame that was rendered once; leaving it again writes nothing.
pub exit-render_all :
    (fs : List (List String)) (a : AltScreen)
    → a.enabled ≡ true
    → let shown = render_all fs a in
      ((exit shown).out
        ≡ shown.out
          ⧺ show_cursor
          ⧺ alt_exit
          ⧺ print_lines "" (last_of a.last_frame fs)
          ⧺ show_cursor)
      × (exit (exit shown) ≡ exit shown)
unfolding exit
exit-render_all fs a e =
    let rendered = render_all-last fs a e in (ground (arith, rendered), ground (arith, rendered))

-- Without a terminal nothing is ever written.
pub enter-silent :
    (fs : List (List String)) (a : AltScreen)
    → a.enabled ≡ false
    → exit (render_all fs (enter false a)) ≡ a
unfolding enter exit render
enter-silent [] a e = ground (arith, e)
enter-silent (f ∷ fs) a e = ground (arith, e, enter-silent fs a e)

pub record ResettableOnce (S : Type 0) : Type 0 where
  pub executed : Bool
  pub state : S

-- `Do`
unfoldable pub do_once : {S : Type 0} → (S → S) → ResettableOnce S → ResettableOnce S
do_once f ro = if ro.executed then ro else record { executed = true; state = f ro.state }

-- `Reset`
unfoldable pub reset : {S : Type 0} → ResettableOnce S → ResettableOnce S
reset ro = record ro { executed = false }
