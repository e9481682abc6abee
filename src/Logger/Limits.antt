-- ===== src/Logger/Limits.antt =====
-- The bounds of an event.
use logspine.Prelude.{
  ℕ, ◌+◌, ◌≤◌, ltb, if◌then◌else◌, true, List, [], ◌∷◌, ◌++◌, Bytes, codes, length, take,
  length-append, length-take, arith,
}
use logspine.Level.{Level}
use logspine.Event.{LogEvent, Field, SourceLocation, kv, boolean}
use logspine.Logger.{Logger, Surroundings, make_event, max_message_length, max_fields_count}

abbrev marker : List Field
marker = kv (codes "_truncated_fields") (boolean true) ∷ []

-- What both limits do.
module _ {ℓ} {A : Type ℓ} (n : ℕ) (xs mark : List A) where
  abbrev cut : List A
  cut = if ltb n (length xs) then take n xs ++ mark else xs

  length-cut : length cut ≤ n + length mark
  length-cut = ground (arith, length-append (take n xs) mark, length-take n xs)

module _ (l : Logger) (around : Surroundings) (severity : Level) (location : SourceLocation) where
  abbrev event : Bytes → List Field → LogEvent
  event message fields = make_event l around severity message fields location

  -- Whatever the caller passes, the message of an event has at most 32,783 bytes and an event at
  -- most 65 fields.
  make_event_bounds :
      (message : Bytes) (fields : List Field)
      → (length (event message fields).message ≤ 32783)
        × (length (event message fields).fields ≤ 65)
  unfolding make_event
  make_event_bounds message fields = (
    length-cut max_message_length message (codes "... [truncated]"),
    length-cut max_fields_count (fields ++ around.mdc) marker,
  )
