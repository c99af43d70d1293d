-- ===== src/Messaging/Queries/History.antt =====
-- What the history query returns.
use mathlib.Core.List.{Perm, append-nil}
use ziyad_messenger.Base.{
  ℕ, ◌≤◌, String, Bool, false, ◌≡◌, refl, ap, ◌∙◌, inl, inr, List, [], ◌∷◌, ◌++◌, arith, ◌==◌,
  Bool-cases, length, take, select, select-append, All, ltb, le→not-ltb,
}
use ziyad_messenger.Protocol.{Message}
use ziyad_messenger.Base.Order.{order_by}
use ziyad_messenger.Base.Order.Laws.{
  order_by-perm, length-order_by, order_by_last, take-append_of_le, InOrder, order_by-InOrder,
}
use ziyad_messenger.Messaging.Queries.{history_rows}

abbrev pub in_channel : String → Message → Bool
in_channel channel_id m = m.channel_id == channel_id

abbrev pub timestamp : Message → ℕ
timestamp m = m.timestamp

-- The history of a channel is the first hundred of all its messages, put in the order of their
-- timestamps: of no other channel's, none doubled and none but those behind the hundredth left out.
pub history_rows_lem :
    (channel_id : String) (ms : List Message)
    → (sorted : List Message) × Perm sorted (select (in_channel channel_id) ms)
      × InOrder timestamp sorted
      × (history_rows channel_id ms ≡ take 100 sorted)
unfolding history_rows
history_rows_lem channel_id ms =
    let before : Message → Message → Bool = λ a b. ltb a.timestamp b.timestamp in
    (
      order_by before (select (in_channel channel_id) ms),
      order_by-perm before (select (in_channel channel_id) ms),
      order_by-InOrder timestamp (select (in_channel channel_id) ms),
      refl,
    )

All-select_later :
    (channel_id : String) (new : Message) (ms : List Message)
    → All (λ m. m.timestamp ≤ new.timestamp) ms
    → All (λ m. ltb new.timestamp m.timestamp ≡ false) (select (in_channel channel_id) ms)
All-select_later channel_id new [] h = tt
All-select_later channel_id new (m ∷ ms) h =
    ground (arith, All-select_later channel_id new ms h.1, le→not-ltb new.timestamp m.timestamp h.0)

-- Once a channel holds a hundred messages its history stands still: a message that is stored behind
-- them, with a timestamp no earlier, is never in it.
pub history_rows_full :
    (channel_id : String) (new : Message) (ms : List Message)
    → 100 ≤ length (select (in_channel channel_id) ms)
    → All (λ m. m.timestamp ≤ new.timestamp) ms
    → history_rows channel_id (ms ++ new ∷ []) ≡ history_rows channel_id ms
unfolding history_rows
history_rows_full channel_id new ms full later =
    let before : Message → Message → Bool = λ a b. ltb a.timestamp b.timestamp in
    let old = select (in_channel channel_id) ms in
    rw select-append (elim (Bool-cases (in_channel channel_id new)) [
      | inl here ↦ rw here (
          ap (take 100) (order_by_last before new old (All-select_later channel_id new ms later))
          ∙ take-append_of_le 100 (order_by before old) (new ∷ [])
              (rw (length-order_by before old) full))
      | inr elsewhere ↦ rw (elsewhere, append-nil old) refl
    ])
