-- ===== src/Container/Tar/Kept.antt =====
-- What every run of TarDirConcurrent keeps, whatever the order in which the goroutines send: the results
-- in the channel and those still to come fill the slots with the same parts in the end.
use engine_ci.Base.{
  ℕ, String, Bool, true, false, none, some, List, [], ◌∷◌, ◌++◌, ◌≡◌, refl, arith, sym, ap, ◌∙◌,
  subst, All, append_assoc,
}
use engine_ci.Container.Tar.{Entry, done, Processed, process}
use engine_ci.Container.Tar.Concurrent.{
  Worker, starting, reading, ending, Collecting, store, numbered, initial, Step, launch, acquire,
  pass_by, send, release, leave, close, receive, give_up, Reach, here, next,
}
use engine_ci.Container.Tar.Indexed.{
  Slots, filled, Agrees, filled-receive, All-remove, All-insert, processed, any_failed,
  any_failed-middle, filled-middle, to_send, numbered-Agrees,
}

-- What the goroutines have still to send.
abbrev pending : List Worker → List (ℕ × Processed)
pending [] = []
pending (starting i f ∷ ws) = (i, process f) ∷ pending ws
pending (reading h i f ∷ ws) = (i, process f) ∷ pending ws
pending (ending h ∷ ws) = pending ws

pending-append : (xs ys : List Worker) → pending (xs ++ ys) ≡ pending xs ++ pending ys
pending-append [] ys = refl
pending-append (starting i f ∷ xs) ys = ap (◌∷◌ (i, process f)) (pending-append xs ys)
pending-append (reading h i f ∷ xs) ys = ap (◌∷◌ (i, process f)) (pending-append xs ys)
pending-append (ending h ∷ xs) ys = pending-append xs ys

-- All that is still to be received.
abbrev pub outstanding : Collecting → List (ℕ × Processed)
outstanding s = s.result_chan ++ (pending s.running ++ to_send s.rest)

pub outstanding-nil :
    (s : Collecting) → s.result_chan ≡ [] → (s.rest ≡ []) × (s.running ≡ []) → outstanding s ≡ []
outstanding-nil s q h =
    ap (λ l. l ++ (pending s.running ++ to_send s.rest)) q
    ∙ ap (λ ws. pending ws ++ to_send s.rest) h.1
    ∙ ap to_send h.0

-- What is kept as long as the loop has met no error.
pub record IsLive (files : List Entry) (xs : List (ℕ × Processed)) (r : Slots) : Type 0 where
  pub agrees : All (Agrees (processed files)) xs
  pub slots : (k : ℕ) → filled xs r k ≡ filled (to_send (numbered 0 files)) (λ i. none) k
  pub failing : any_failed xs ≡ any_failed (to_send (numbered 0 files))

pub data Kept (files : List Entry) (t : Collecting) : Type 0 where
  live : t.failure ≡ none → IsLive files (outstanding t) t.results → Kept files t
  over :
      (e : String)
      → t.failure ≡ some e
      → any_failed (to_send (numbered 0 files)) ≡ true
      → Kept files t

-- A result may move among those that are to be received.
IsLive-moved :
    (files : List Entry) (ls bs cs ds : List (ℕ × Processed)) (x : ℕ × Processed) (r : Slots)
    → ls ++ bs ≡ cs ++ ds
    → IsLive files (ls ++ x ∷ bs) r
    → IsLive files (cs ++ x ∷ ds) r
IsLive-moved files ls bs cs ds x r e h =
    let ps = processed files in
    let removed = All-remove (Agrees ps) ls bs x h.agrees in
    let agrees : All (Agrees ps) (cs ++ x ∷ ds) =
      All-insert (Agrees ps) cs ds x removed.0 (subst (All (Agrees ps)) e removed.1) in
    record {
      agrees = agrees;
      slots = λ k.
          filled-middle ps cs ds x r k agrees
          ∙ ap (λ l. filled (x ∷ l) r k) (sym e)
          ∙ sym (filled-middle ps ls bs x r k h.agrees)
          ∙ h.slots k;
      failing =
          any_failed-middle cs ds x
          ∙ ap (λ l. any_failed (x ∷ l)) (sym e)
          ∙ sym (any_failed-middle ls bs x)
          ∙ h.failing;
    }

module _ (files : List Entry) where
  -- A transition that leaves the loop alone.
  Kept-by :
      {s t : Collecting}
      → s.failure ≡ t.failure
      → (IsLive files (outstanding s) s.results → IsLive files (outstanding t) t.results)
      → Kept files s
      → Kept files t
  Kept-by e f (live n l) = live (sym e ∙ n) (f l)
  Kept-by e f (over m h a) = over m (sym e ∙ h) a

  same_pending :
      (s : Collecting) (vs ws : List Worker) (r : Slots)
      → s.running ≡ vs
      → pending vs ≡ pending ws
      → IsLive files (outstanding s) r
      → IsLive files (outstanding (record s { running = ws })) r
  same_pending s vs ws r e k =
      subst (λ l. IsLive files (s.result_chan ++ (l ++ to_send s.rest)) r) (ap pending e ∙ k)

  replaced :
      (xs vs ws : List Worker) → pending vs ≡ pending ws → pending (xs ++ vs) ≡ pending (xs ++ ws)
  replaced xs vs ws e =
      pending-append xs vs ∙ ap (λ l. pending xs ++ l) e ∙ sym (pending-append xs ws)

  launch-IsLive :
      (s : Collecting) (fs : List (ℕ × Entry)) (i : ℕ) (f : Entry)
      → s.rest ≡ (i, f) ∷ fs
      → IsLive files (outstanding s) s.results
      → IsLive files (s.result_chan ++ ((i, process f) ∷ pending s.running ++ to_send fs)) s.results
  launch-IsLive s fs i f e h =
      let chan = s.result_chan in
      let ps = pending s.running in
      IsLive-moved files (chan ++ ps) (to_send fs) chan (ps ++ to_send fs) (i, process f) s.results
        (append_assoc chan ps (to_send fs))
        (subst (λ l. IsLive files l s.results)
          (ap (λ l. chan ++ (ps ++ to_send l)) e
            ∙ sym (append_assoc chan ps ((i, process f) ∷ to_send fs)))
          h)

  send-IsLive :
      (s : Collecting) (xs ys : List Worker) (b : Bool) (i : ℕ) (f : Entry)
      → s.running ≡ xs ++ reading b i f ∷ ys
      → IsLive files (outstanding s) s.results
      → IsLive files
          ((s.result_chan ++ (i, process f) ∷ [])
            ++ (pending (xs ++ ending b ∷ ys) ++ to_send s.rest))
          s.results
  send-IsLive s xs ys b i f e h =
      let chan = s.result_chan in
      let x : ℕ × Processed = (i, process f) in
      let rest = to_send s.rest in
      let before : IsLive files ((chan ++ pending xs) ++ x ∷ (pending ys ++ rest)) s.results =
        subst (λ l. IsLive files l s.results)
          (ap (λ l. chan ++ (l ++ rest)) (ap pending e ∙ pending-append xs (reading b i f ∷ ys))
            ∙ ap (λ l. chan ++ l) (append_assoc (pending xs) (x ∷ pending ys) rest)
            ∙ sym (append_assoc chan (pending xs) (x ∷ (pending ys ++ rest))))
          h in
      let after =
        IsLive-moved files (chan ++ pending xs) (pending ys ++ rest) chan
          (pending xs ++ (pending ys ++ rest)) x s.results
          (append_assoc chan (pending xs) (pending ys ++ rest)) before in
      subst (λ l. IsLive files l s.results)
        (ap (λ l. chan ++ x ∷ l)
            (sym (append_assoc (pending xs) (pending ys) rest)
              ∙ ap (λ l. l ++ rest) (sym (pending-append xs (ending b ∷ ys))))
          ∙ sym (append_assoc chan (x ∷ []) (pending (xs ++ ending b ∷ ys) ++ rest)))
        after

  receive-IsLive :
      (xs : List (ℕ × Processed)) (i : ℕ) (part : String × String) (r : Slots)
      → IsLive files ((i, done part) ∷ xs) r
      → IsLive files xs (store i part r)
  receive-IsLive xs i part r h = record {
    agrees = h.agrees.1;
    slots = λ k. sym (filled-receive (processed files) [] xs i part r k h.agrees) ∙ h.slots k;
    failing = h.failing;
  }

  module _ {max_workers capacity : ℕ} where
    Kept-Step : {s t : Collecting} → Step max_workers capacity s t → Kept files s → Kept files t
    Kept-Step (launch s fs i f e) h = Kept-by refl (launch-IsLive s fs i f e) h
    Kept-Step (acquire s xs ys i f e k) h =
        Kept-by refl
          (same_pending s _ (xs ++ reading true i f ∷ ys) s.results e
            (replaced xs (starting i f ∷ ys) (reading true i f ∷ ys) refl))
          h
    Kept-Step (pass_by s xs ys i f e k) h =
        Kept-by refl
          (same_pending s _ (xs ++ reading false i f ∷ ys) s.results e
            (replaced xs (starting i f ∷ ys) (reading false i f ∷ ys) refl))
          h
    Kept-Step (send s xs ys b i f e k) h = Kept-by refl (send-IsLive s xs ys b i f e) h
    Kept-Step (release s xs ys e k) h =
        Kept-by refl
          (same_pending s _ (xs ++ ending false ∷ ys) s.results e
            (replaced xs (ending true ∷ ys) (ending false ∷ ys) refl))
          h
    Kept-Step (leave s xs ys e) h =
        Kept-by refl
          (same_pending s _ (xs ++ ys) s.results e (replaced xs (ending false ∷ ys) ys refl)) h
    Kept-Step (close s e k o) h = Kept-by refl (λ l. l) h
    Kept-Step (receive s queue i part e n q) h =
        Kept-by refl
          (λ l.
            receive-IsLive (queue ++ (pending s.running ++ to_send s.rest)) i part s.results (
              subst (λ c. IsLive files (c ++ (pending s.running ++ to_send s.rest)) s.results) q l))
          h
    Kept-Step (give_up s queue i m e n q) (live k h) =
        over m refl
          (sym h.failing ∙ ap (λ l. any_failed (l ++ (pending s.running ++ to_send s.rest))) q)
    Kept-Step (give_up s queue i m e n q) (over m' k a) = absurd (ground (arith, n, k))

    pub Kept-Reach : {t : Collecting} → Reach max_workers capacity (initial files) t → Kept files t
    unfolding initial
    Kept-Reach here =
        live refl (record { agrees = numbered-Agrees files; slots = λ k. refl; failing = refl })
    Kept-Reach (next r st) = Kept-Step st (Kept-Reach r)
