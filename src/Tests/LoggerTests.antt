-- ===== src/Tests/LoggerTests.antt =====
-- Log messages in batches.
use engine_ci.Base.{String, true, false, [], ◌∷◌, ◌++◌, ◌≡◌, refl, arith, All}
use engine_ci.Logger.Message.{LogMessage}
use engine_ci.Logger.Entry.{last5_messages}
use engine_ci.Logger.Batches.{
  BatchState, initial, log, signal, receive, stop_early, Reach, here, next, received, returning,
}
use engine_ci.Logger.Aggregator.Processed.{flatten}
use engine_ci.Logger.Batches.Order.{IsBatch, batches_lem}

abbrev line : String → LogMessage
line text = record { routine_id = "[app]"; message = text; is_done = false; is_failed = false }

six_lines :
    last5_messages ("1" ∷ "2" ∷ "3" ∷ "4" ∷ "5" ∷ "6" ∷ []) ≡ "2" ∷ "3" ∷ "4" ∷ "5" ∷ "6" ∷ []
unfolding last5_messages
six_lines = refl

-- Two messages are logged and one is received before Flush ends the processor: the other one is lost.
abbrev two_logged : BatchState
two_logged = record initial { queue = line "1" ∷ line "2" ∷ []; logged = line "1" ∷ line "2" ∷ [] }

abbrev flushing : BatchState
flushing = record (received (line "1") (line "2" ∷ []) two_logged) { is_shutdown = true }

abbrev flushed : BatchState
flushed = returning flushing

flush_run : Reach 1000 initial flushed
unfolding received returning
flush_run =
    next
      (next
        (next
          (next (next here (log initial (line "1") refl (omega arith)))
            (log _ (line "2") refl (omega arith)))
          (receive two_logged (line "1") (line "2" ∷ []) refl refl))
        (signal _ refl))
      (stop_early flushing refl refl)

batches_example :
    All IsBatch flushed.sent × (flatten flushed.sent ++ flushed.queue ≡ line "1" ∷ line "2" ∷ [])
unfolding received returning
batches_example = batches_lem 1000 flush_run refl

one_is_lost : (flushed.sent ≡ (line "1" ∷ []) ∷ []) × (flushed.queue ≡ line "2" ∷ [])
unfolding received returning
one_is_lost = (refl, refl)
