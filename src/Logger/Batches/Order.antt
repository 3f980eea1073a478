-- ===== src/Logger/Batches/Order.antt =====
-- What BatchProcessor hands on of the messages that were logged.
use engine_ci.Base.{
  ℕ, ◌<◌, ◌≤◌, true, false, List, [], ◌∷◌, ◌++◌, ◌≡◌, refl, arith, ap, sym, ◌∙◌, length, leb,
  append_assoc, append-nil, All, All-append, length-append, Bool-cases, inl, inr,
}
use engine_ci.Logger.Message.{LogMessage}
use engine_ci.Logger.Aggregator.Processed.{flatten}
use engine_ci.Logger.Batches.{
  BatchState, initial, flush_batch, received, returning, Step, log, signal, close_channel, receive,
  drained, timeout, stop_early, Reach, here, next,
}

pub flatten-append :
    (xs ys : List (List LogMessage)) → flatten (xs ++ ys) ≡ flatten xs ++ flatten ys
flatten-append [] ys = refl
flatten-append (x ∷ xs) ys =
    ap (x ++◌) (flatten-append xs ys) ∙ sym (append_assoc x (flatten xs) (flatten ys))

flatten-flush :
    (batch : List LogMessage) (sent : List (List LogMessage))
    → flatten (flush_batch batch sent) ≡ flatten sent ++ batch
flatten-flush [] sent = sym (append-nil (flatten sent))
flatten-flush (m ∷ ms) sent =
    flatten-append sent ((m ∷ ms) ∷ []) ∙ ap (flatten sent ++◌) (append-nil (m ∷ ms))

-- The messages that are handed on, those of the batch and those of the channel, in this order.
abbrev pub in_order : BatchState → List LogMessage
in_order s = flatten s.sent ++ s.batch ++ s.queue

abbrev pub IsBatch : List LogMessage → Type 0
IsBatch b = (1 ≤ length b) × (length b ≤ 10)

record Ordered (s : BatchState) : Type 0 where
  same : in_order s ≡ s.logged
  batches : All IsBatch s.sent
  partial : length s.batch < 10
  emptied : s.has_returned ≡ true → s.batch ≡ []

flush-IsBatch :
    (batch : List LogMessage) (sent : List (List LogMessage))
    → All IsBatch sent
    → length batch < 10
    → All IsBatch (flush_batch batch sent)
flush-IsBatch [] sent h l = h
flush-IsBatch (m ∷ ms) sent h l =
    All-append IsBatch sent ((m ∷ ms) ∷ []) h ((omega arith, omega (arith, l)), tt)

flushed :
    (s : BatchState) → Ordered s → flatten (flush_batch s.batch s.sent) ++ [] ++ s.queue ≡ s.logged
flushed s k = ap (λ l. l ++ s.queue) (append-nil _ ∙ flatten-flush s.batch s.sent) ∙ k.same

received-Ordered :
    (s : BatchState) (m : LogMessage) (queue : List LogMessage)
    → s.has_returned ≡ false
    → s.queue ≡ m ∷ queue
    → Ordered s
    → Ordered (received m queue s)
unfolding received
received-Ordered s m queue a q k =
    let batch = s.batch ++ m ∷ [] in
    let size = length-append s.batch (m ∷ []) in
    let same : flatten s.sent ++ batch ++ queue ≡ s.logged =
      ap (λ l. l ++ queue) (sym (append_assoc (flatten s.sent) s.batch (m ∷ [])))
      ∙ append_assoc (flatten s.sent ++ s.batch) (m ∷ []) queue
      ∙ ap (λ q. flatten s.sent ++ s.batch ++ q) (sym q)
      ∙ k.same in
    elim (Bool-cases (leb 10 (length batch))) [
      | inl e ↦ rw e (record {
        same =
            ap (λ l. l ++ queue)
              (append-nil _
                ∙ flatten-append s.sent (batch ∷ [])
                ∙ ap (flatten s.sent ++◌) (append-nil batch))
            ∙ same;
        batches =
            All-append IsBatch s.sent (batch ∷ []) k.batches
              ((omega (arith, size), omega (arith, size, k.partial)), tt);
        partial = omega arith;
        emptied = λ f. refl;
      })
      | inr e ↦ rw e (record {
        same = same;
        batches = k.batches;
        partial = ground (arith, e);
        emptied = λ f. absurd (ground (arith, a, f));
      })
    ]

module _ (capacity : ℕ) where
  Ordered-Step : {s t : BatchState} → Step capacity s t → Ordered s → Ordered t
  unfolding returning
  Ordered-Step (log s m c l) k = record {
    same =
        sym (append_assoc (flatten s.sent ++ s.batch) s.queue (m ∷ []))
        ∙ ap (λ l. l ++ m ∷ []) k.same;
    batches = k.batches;
    partial = k.partial;
    emptied = k.emptied;
  }
  Ordered-Step (signal s a) k = record {
    same = k.same;
    batches = k.batches;
    partial = k.partial;
    emptied = k.emptied;
  }
  Ordered-Step (close_channel s a b) k = record {
    same = k.same;
    batches = k.batches;
    partial = k.partial;
    emptied = k.emptied;
  }
  Ordered-Step (receive s m queue a q) k = received-Ordered s m queue a q k
  Ordered-Step (drained s a q c) k = record {
    same = flushed s k;
    batches = flush-IsBatch s.batch s.sent k.batches k.partial;
    partial = omega arith;
    emptied = λ e. refl;
  }
  Ordered-Step (timeout s a) k = record {
    same = flushed s k;
    batches = flush-IsBatch s.batch s.sent k.batches k.partial;
    partial = omega arith;
    emptied = λ e. refl;
  }
  Ordered-Step (stop_early s a c) k = record {
    same = flushed s k;
    batches = flush-IsBatch s.batch s.sent k.batches k.partial;
    partial = omega arith;
    emptied = λ e. refl;
  }

  Ordered-Reach : {t : BatchState} → Reach capacity initial t → Ordered t
  Ordered-Reach here = record {
    same = refl;
    batches = tt;
    partial = omega arith;
    emptied = λ e. refl;
  }
  Ordered-Reach (next r st) = Ordered-Step st (Ordered-Reach r)

  -- Once the processor has returned, whatever the order of the events, every batch that was handed on
  -- holds one to ten messages, and the batches in their order are what was logged up to the messages that
  -- are still in the channel.
  pub batches_lem :
      {t : BatchState}
      → Reach capacity initial t
      → t.has_returned ≡ true
      → All IsBatch t.sent × (flatten t.sent ++ t.queue ≡ t.logged)
  batches_lem {t} r e =
      let k = Ordered-Reach r in
      (
        k.batches,
        ap (λ l. l ++ t.queue) (sym (append-nil _) ∙ ap (flatten t.sent ++◌) (sym (k.emptied e)))
            ∙ k.same,
      )
