-- ===== src/Logger/Aggregator/Processed.antt =====
-- What the loops of one call of processBatch keep of the messages of each routine.
use engine_ci.Base.{
  String, ◌||◌, List, [], ◌∷◌, ◌++◌, ◌==◌, ◌≡◌, arith, ◌∙◌, if◌then◌else◌, Dict, lookup, insert,
  lookup-insert, contains, contains-append, count, count-append, append_assoc, Bool-cases, inl, inr,
  eq_iff, append-nil,
}
use engine_ci.Logger.Message.{LogMessage}
use engine_ci.Logger.Entry.{LogEntry, last5_messages}
use engine_ci.Logger.Entry.Last.{add_message-last5}
use engine_ci.Logger.Aggregator.{or_new, update_entry, store_batch, update_order}

-- The texts of the messages of a routine.
abbrev texts_of : String → List LogMessage → List String
texts_of id [] = []
texts_of id (m ∷ ms) =
    let rest = texts_of id ms in if m.routine_id == id then m.message ∷ rest else rest

abbrev routines : List LogMessage → List String
routines [] = []
routines (m ∷ ms) = m.routine_id ∷ routines ms

abbrev pub flatten : List (List LogMessage) → List LogMessage
flatten [] = []
flatten (b ∷ bs) = b ++ flatten bs

abbrev kept : String → Dict LogEntry → List String
kept id logs = (or_new (lookup id logs)).messages

update_entry-last5 :
    (m : LogMessage) (le : LogEntry) (ms : List String)
    → le.messages ≡ last5_messages ms
    → (update_entry m le).messages ≡ last5_messages (ms ++ m.message ∷ [])
update_entry-last5 m le ms h = ground (arith, add_message-last5 le ms m.message h)

insert-kept :
    (id key : String) (le : LogEntry) (logs : Dict LogEntry)
    → kept id (insert key le logs) ≡ (if key == id then le.messages else kept id logs)
insert-kept id key le logs = ground (arith, lookup-insert key id le logs)

-- A batch adds its lines to those of each routine, of which the last five are kept.
store_batch-kept :
    (id : String) (batch : List LogMessage) (logs : Dict LogEntry) (prior : List String)
    → kept id logs ≡ last5_messages prior
    → kept id (store_batch batch logs) ≡ last5_messages (prior ++ texts_of id batch)
unfolding store_batch
store_batch-kept id [] logs prior h = ground (arith, h, append-nil prior)
store_batch-kept id (m ∷ ms) logs prior h =
    let new = update_entry m (or_new (lookup m.routine_id logs)) in
    let next = insert m.routine_id new logs in
    elim (Bool-cases (m.routine_id == id)) [
      | inl e ↦
          let here =
            update_entry-last5 m (or_new (lookup m.routine_id logs)) prior
              (ground (arith, h, e, eq_iff m.routine_id id)) in
          store_batch-kept id ms next (prior ++ m.message ∷ [])
            (ground (arith, insert-kept id m.routine_id new logs, e, here))
          ∙ ground (arith, e, append_assoc prior (m.message ∷ []) (texts_of id ms))
      | inr e ↦
          store_batch-kept id ms next prior
            (ground (arith, insert-kept id m.routine_id new logs, e, h))
          ∙ ground (arith, e)
    ]

-- Every routine stands in the order at most once.
abbrev IsUnique : List String → Type 0
IsUnique order = (id : String) → count id order ≡ (if contains order id then 1 else 0)

extended-IsUnique :
    (order : List String) (key : String)
    → IsUnique order
    → IsUnique (if contains order key then order else order ++ key ∷ [])
unfolding count
extended-IsUnique order key h id = ground (
  arith,
  h id,
  h key,
  count-append id order (key ∷ []),
  contains-append order (key ∷ []) id,
  eq_iff key id,
)

-- A batch lists every routine that has logged once.
update_order-count :
    (id : String) (ms : List LogMessage) (order : List String)
    → IsUnique order
    → count id (update_order ms order)
      ≡ (if contains order id || contains (routines ms) id then 1 else 0)
unfolding update_order
update_order-count id [] order h = ground (arith, h id)
update_order-count id (m ∷ ms) order h =
    update_order-count id ms _ (extended-IsUnique order m.routine_id h)
    ∙ ground (arith, contains-append order (m.routine_id ∷ []) id, eq_iff m.routine_id id)
