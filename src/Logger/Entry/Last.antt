-- ===== src/Logger/Entry/Last.antt =====
-- What a LogEntry keeps of the lines that are added to it.
use engine_ci.Base.{
  suc, ◌≤◌, ◌-◌, String, List, [], ◌∷◌, ◌++◌, ◌≡◌, refl, arith, ap, if◌then◌else◌, length, drop,
  leb, length-append, Bool-cases, inl, inr,
}
use engine_ci.Logger.Entry.{LogEntry, make_room, add_message, last5_messages}

drop-behind :
    (m : String) (ms : List String)
    → 5 ≤ length ms
    → drop (suc (length ms) - 5) (m ∷ ms) ≡ drop (length ms - 5) ms
drop-behind m ms h =
    let e : suc (length ms) - 5 ≡ suc (length ms - 5) = omega (arith, h) in
    ap (λ n. drop n (m ∷ ms)) e

-- The last five lines, one line at a time.
last5-cons :
    (m : String) (ms : List String)
    → last5_messages (m ∷ ms) ≡ (if leb 5 (length ms) then last5_messages ms else m ∷ ms)
unfolding last5_messages
last5-cons m ms = elim (Bool-cases (leb 5 (length ms))) [
  | inl e ↦ ground (arith, e, drop-behind m ms (ground (arith, e)))
  | inr e ↦ ground (arith, e)
]

make_room-last5 :
    (ms : List String) (msg : String)
    → length ms ≤ 5
    → make_room ms ++ msg ∷ [] ≡ last5_messages (ms ++ msg ∷ [])
unfolding last5_messages
make_room-last5 [] msg h = refl
make_room-last5 (a ∷ []) msg h = refl
make_room-last5 (a ∷ b ∷ []) msg h = refl
make_room-last5 (a ∷ b ∷ c ∷ []) msg h = refl
make_room-last5 (a ∷ b ∷ c ∷ d ∷ []) msg h = refl
make_room-last5 (a ∷ b ∷ c ∷ d ∷ e ∷ []) msg h = refl
make_room-last5 (a ∷ b ∷ c ∷ d ∷ e ∷ f ∷ ms) msg h = absurd (omega (arith, h))

last5-length : (ms : List String) → length (last5_messages ms) ≤ 5
unfolding last5_messages
last5-length [] = omega arith
last5-length (m ∷ ms) = ground (arith, last5-cons m ms, last5-length ms)

last5-last5 :
    (ms : List String) (msg : String)
    → last5_messages (last5_messages ms ++ msg ∷ []) ≡ last5_messages (ms ++ msg ∷ [])
unfolding last5_messages
last5-last5 [] msg = refl
last5-last5 (m ∷ ms) msg = elim (Bool-cases (leb 5 (length ms))) [
  | inl e ↦ ground (
    arith,
    e,
    last5-cons m ms,
    last5-cons m (ms ++ msg ∷ []),
    length-append ms (msg ∷ []),
    last5-last5 ms msg,
  )
  | inr e ↦ ground (arith, e, last5-cons m ms)
]

pub add_message-last5 :
    (le : LogEntry) (ms : List String) (msg : String)
    → le.messages ≡ last5_messages ms
    → (add_message msg le).messages ≡ last5_messages (ms ++ msg ∷ [])
unfolding add_message
add_message-last5 le ms msg h =
    ground (arith, h, make_room-last5 (last5_messages ms) msg (last5-length ms), last5-last5 ms msg)
