-- ===== src/Svc/Git/Cached.antt =====
-- The repository is read once.
use engine_ci.Base.{String, Option, none, some, ◌≡◌, refl, ap, ◌∙◌, Bool-cases, inl, inr}
use engine_ci.Svc.Git.{Git, GitCommand, remember, set_git_info}

abbrev pub Call : Type 0
Call = Option Git × Option Git

-- What a later call answers for the state that an earlier one left.
abbrev pub kept_or : Call → Option Git → Call
kept_or again (some found) = remember (some found)
kept_or again none = again

set_git_info-kept :
    (look : String → Option String) (cmd : GitCommand) (o : Option Git)
    → set_git_info look cmd o ≡ kept_or (set_git_info look cmd none) o
unfolding set_git_info
set_git_info-kept look cmd none = refl
set_git_info-kept look cmd (some g) = refl

remembered :
    (look : String → Option String) (cmd : GitCommand) (g : Option Git)
    → set_git_info look cmd g ≡ remember (set_git_info look cmd g).0
unfolding set_git_info
remembered look cmd (some g) = refl
remembered look cmd none = elim (Bool-cases cmd.exists_) [ inl e ↦ rw e refl | inr e ↦ rw e refl ]

-- What setGitInfo answers is the new state. A repository once found is what every later call answers,
-- whatever the environment and the commands are then; after a failure nothing is known, and a later
-- call answers what it would have answered as the first one.
pub set_git_info_lem :
    (look later : String → Option String) (cmd cmd' : GitCommand) (g : Option Git)
    → (let (answer, after) = set_git_info look cmd g in
        (after ≡ answer)
        × (set_git_info later cmd' after ≡ kept_or (set_git_info later cmd' none) answer))
set_git_info_lem look later cmd cmd' g =
    let r = set_git_info look cmd g in
    let same = ap (λ (c : Call). c.1) (remembered look cmd g) in
    (same, ap (set_git_info later cmd') same ∙ set_git_info-kept later cmd' r.0)
