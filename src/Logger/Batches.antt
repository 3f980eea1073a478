-- ===== src/Logger/Batches.antt =====
-- pkg/logger/terminal.go: BatchProcessor.start with its channels. A transition is one case of its select,
-- or one action of the goroutines that log and flush. `logged` lists all the messages that were sent; it
-- is there to state theorems with. The timer may fire at any time at which a batch is begun.
pub mod Order
use engine_ci.Base.{
  ℕ, suc, ◌+◌, ◌<◌, String, Bool, true, false, List, [], ◌∷◌, ◌++◌, ◌≡◌, ◌≢◌, if◌then◌else◌, length,
  leb,
}
use engine_ci.Logger.Message.{LogMessage}

pub record BatchState : Type 0 where
  -- what waits in `inputChan`, and whether it is closed
  pub queue : List LogMessage
  pub is_closed : Bool
  -- whether `aggregator.shutdown` is closed
  pub is_shutdown : Bool
  pub batch : List LogMessage
  -- what was sent to `processChan`, and whether `start` has closed it and returned
  pub sent : List (List LogMessage)
  pub has_returned : Bool
  pub logged : List LogMessage

abbrev pub initial : BatchState
initial = record {
  queue = [];
  is_closed = false;
  is_shutdown = false;
  batch = [];
  sent = [];
  has_returned = false;
  logged = [];
}

abbrev pub batch_size : ℕ
batch_size = 10

-- `if len(batch) > 0 { processChan <- batch }`
abbrev pub flush_batch : List LogMessage → List (List LogMessage) → List (List LogMessage)
flush_batch [] sent = sent
flush_batch (m ∷ ms) sent = sent ++ (m ∷ ms) ∷ []

-- The state once a message is received.
unfoldable pub received : LogMessage → List LogMessage → BatchState → BatchState
received m queue s =
    let batch = s.batch ++ m ∷ [] in
    if leb batch_size (length batch)
    then record s { queue = queue; batch = []; sent = s.sent ++ batch ∷ [] }
    else record s { queue = queue; batch = batch }

-- The two branches that end `start`.
unfoldable pub returning : BatchState → BatchState
returning s = record s { batch = []; sent = flush_batch s.batch s.sent; has_returned = true }

module _ (capacity : ℕ) where
  pub data Step : BatchState → BatchState → Type 0 where
    -- `la.logChannel <- ...` of a goroutine that logs
    log :
        (s : BatchState) (m : LogMessage)
        → s.is_closed ≡ false
        → length s.queue < capacity
        → Step s (record s { queue = s.queue ++ m ∷ []; logged = s.logged ++ m ∷ [] })
    -- `Flush`: the shutdown is signalled before the channel is closed
    signal : (s : BatchState) → s.is_shutdown ≡ false → Step s (record s { is_shutdown = true })
    close_channel :
        (s : BatchState)
        → s.is_shutdown ≡ true
        → s.is_closed ≡ false
        → Step s (record s { is_closed = true })
    receive :
        (s : BatchState) (m : LogMessage) (queue : List LogMessage)
        → s.has_returned ≡ false
        → s.queue ≡ m ∷ queue
        → Step s (received m queue s)
    drained :
        (s : BatchState)
        → s.has_returned ≡ false
        → s.queue ≡ []
        → s.is_closed ≡ true
        → Step s (returning s)
    timeout :
        (s : BatchState)
        → s.has_returned ≡ false
        → Step s (record s { batch = []; sent = flush_batch s.batch s.sent })
    stop_early :
        (s : BatchState) → s.has_returned ≡ false → s.is_shutdown ≡ true → Step s (returning s)

  pub data Reach (s : BatchState) : BatchState → Type 0 where
    here : Reach s s
    next : {t u : BatchState} → Reach s t → Step t u → Reach s u
