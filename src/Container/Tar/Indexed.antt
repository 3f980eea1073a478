-- ===== src/Container/Tar/Indexed.antt =====
-- The slots in which TarDirConcurrent stores what it receives. The order in which the parts are received
-- does not show in the slots.
use engine_ci.Base.{
  ℕ, suc, String, Bool, true, false, Option, some, List, [], ◌∷◌, ◌++◌, ◌≡◌, refl, arith, ◌∙◌, sym,
  get_elem?, All, length, length-append, append_assoc, subst,
}
use engine_ci.Container.Tar.{Entry, done, failed, Processed, process}
use engine_ci.Container.Tar.Concurrent.{store, numbered}

abbrev pub Slots : Type 0
Slots = ℕ → Option (String × String)

-- The slots once all that is still to be received is stored.
abbrev pub filled : List (ℕ × Processed) → Slots → Slots
filled [] r = r
filled ((i, done part) ∷ xs) r = store i part (filled xs r)
filled ((i, failed e) ∷ xs) r = filled xs r

-- What is sent is what the file of its index gives.
abbrev pub Agrees : List Processed → ℕ × Processed → Type 0
Agrees ps x = get_elem? ps x.0 ≡ some x.1

store-store :
    (ps : List Processed) (i j k : ℕ) (p q : String × String) (r : Slots)
    → get_elem? ps i ≡ some (done p)
    → get_elem? ps j ≡ some (done q)
    → store i p (store j q r) k ≡ store j q (store i p r) k
store-store ps i j k p q r hi hj = grind arith

filled-store :
    (ps : List Processed) (i : ℕ) (p : String × String) (ys : List (ℕ × Processed)) (r : Slots)
    (k : ℕ)
    → get_elem? ps i ≡ some (done p)
    → All (Agrees ps) ys
    → store i p (filled ys r) k ≡ filled ys (store i p r) k
filled-store ps i p [] r k hi h = refl
filled-store ps i p ((j, done q) ∷ ys) r k hi h =
    store-store ps i j k p q (filled ys r) hi h.0
    ∙ ground (arith, filled-store ps i p ys r k hi h.1)
filled-store ps i p ((j, failed e) ∷ ys) r k hi h = filled-store ps i p ys r k hi h.1

-- Receiving a part stores it, and leaves the slots that are filled in the end.
pub filled-receive :
    (ps : List Processed) (xs ys : List (ℕ × Processed)) (i : ℕ) (p : String × String) (r : Slots)
    (k : ℕ)
    → All (Agrees ps) (xs ++ (i, done p) ∷ ys)
    → filled (xs ++ (i, done p) ∷ ys) r k ≡ filled (xs ++ ys) (store i p r) k
filled-receive ps [] ys i p r k h = filled-store ps i p ys r k h.0 h.1
filled-receive ps ((j, done q) ∷ xs) ys i p r k h =
    ground (arith, filled-receive ps xs ys i p r k h.1)
filled-receive ps ((j, failed e) ∷ xs) ys i p r k h = filled-receive ps xs ys i p r k h.1

filled-failed :
    (xs ys : List (ℕ × Processed)) (i : ℕ) (e : String) (r : Slots) (k : ℕ)
    → filled (xs ++ (i, failed e) ∷ ys) r k ≡ filled (xs ++ ys) r k
filled-failed [] ys i e r k = refl
filled-failed ((j, done q) ∷ xs) ys i e r k = ground (arith, filled-failed xs ys i e r k)
filled-failed ((j, failed f) ∷ xs) ys i e r k = filled-failed xs ys i e r k

pub All-remove {ℓ} :
    {A : Type ℓ} (P : A → Type ℓ) (xs ys : List A) (x : A)
    → All P (xs ++ x ∷ ys)
    → P x × All P (xs ++ ys)
All-remove P [] ys x h = h
All-remove P (y ∷ xs) ys x h = let rest = All-remove P xs ys x h.1 in (rest.0, (h.0, rest.1))

pub All-insert {ℓ} :
    {A : Type ℓ} (P : A → Type ℓ) (xs ys : List A) (x : A)
    → P x
    → All P (xs ++ ys)
    → All P (xs ++ x ∷ ys)
All-insert P [] ys x p h = (p, h)
All-insert P (y ∷ xs) ys x p h = (h.0, All-insert P xs ys x p h.1)

-- A result may as well be the first one.
pub filled-middle :
    (ps : List Processed) (xs ys : List (ℕ × Processed)) (x : ℕ × Processed) (r : Slots) (k : ℕ)
    → All (Agrees ps) (xs ++ x ∷ ys)
    → filled (xs ++ x ∷ ys) r k ≡ filled (x ∷ (xs ++ ys)) r k
filled-middle ps xs ys (i, done part) r k h =
    filled-receive ps xs ys i part r k h
    ∙ sym
        (filled-receive ps [] (xs ++ ys) i part r k (All-remove (Agrees ps) xs ys (i, done part) h))
filled-middle ps xs ys (i, failed e) r k h = filled-failed xs ys i e r k

-- What the goroutines of the files have to send.
abbrev pub to_send : List (ℕ × Entry) → List (ℕ × Processed)
to_send [] = []
to_send ((i, f) ∷ fs) = (i, process f) ∷ to_send fs

unfoldable pub processed : List Entry → List Processed
processed [] = []
processed (f ∷ fs) = process f ∷ processed fs

-- Whether one of the goroutines fails.
abbrev pub any_failed : List (ℕ × Processed) → Bool
any_failed [] = false
any_failed ((i, done part) ∷ xs) = any_failed xs
any_failed ((i, failed e) ∷ xs) = true

pub any_failed-middle :
    (xs ys : List (ℕ × Processed)) (x : ℕ × Processed)
    → any_failed (xs ++ x ∷ ys) ≡ any_failed (x ∷ (xs ++ ys))
any_failed-middle [] ys x = refl
any_failed-middle ((j, done q) ∷ xs) ys (i, done part) = any_failed-middle xs ys (i, done part)
any_failed-middle ((j, done q) ∷ xs) ys (i, failed e) = any_failed-middle xs ys (i, failed e)
any_failed-middle ((j, failed f) ∷ xs) ys (i, done part) = refl
any_failed-middle ((j, failed f) ∷ xs) ys (i, failed e) = refl

get_elem?-length :
    (ps qs : List Processed) (p : Processed) → get_elem? (ps ++ p ∷ qs) (length ps) ≡ some p
get_elem?-length [] qs p = refl
get_elem?-length (q ∷ ps) qs p = get_elem?-length ps qs p

numbered-Agrees_from :
    (ps : List Processed) (i : ℕ) (fs : List Entry)
    → i ≡ length ps
    → All (Agrees (ps ++ processed fs)) (to_send (numbered i fs))
unfolding processed
numbered-Agrees_from ps i [] e = tt
numbered-Agrees_from ps i (f ∷ fs) e = (
  (rw e (get_elem?-length ps (processed fs) (process f))),
  subst (λ qs. All (Agrees qs) (to_send (numbered (suc i) fs)))
      (append_assoc ps (process f ∷ []) (processed fs))
      (numbered-Agrees_from (ps ++ process f ∷ []) (suc i) fs
        (omega (arith, e, length-append ps (process f ∷ [])))),
)

pub numbered-Agrees : (fs : List Entry) → All (Agrees (processed fs)) (to_send (numbered 0 fs))
numbered-Agrees fs = numbered-Agrees_from [] 0 fs refl
