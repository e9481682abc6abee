-- ===== src/Dispatcher.antt =====
-- include/logspine/dispatcher.hpp and sink.hpp: what a logger asks of a dispatcher, and what a
-- dispatcher asks of a sink.
use logspine.Prelude.{ℕ, ◌+◌, ◌%◌, ◌^◌, Bool, Option, none, some, true, Bytes}
use logspine.Event.{LogEvent}

-- A sink's `write` and `flush` on its state. The flag says that an exception was thrown.
pub record SinkClass (S : Type 0) : Type 0 where
  pub write : LogEvent → S → S × Bool
  pub flush : S → S × Bool

-- The virtual functions of `dispatcher`, on the state of an implementation.
pub record DispatcherClass (D : Type 0) : Type 0 where
  pub dispatch : LogEvent → D → D
  pub flush : D → D
  pub dropped_events : D → ℕ
  pub sink_failures : D → ℕ

-- `sink::should_log` and the formatter of a sink, where they are set.
abbrev pub Filter : Type 0
Filter = LogEvent → Bool

abbrev pub Formatter : Type 0
Formatter = LogEvent → Bytes

abbrev pub should_log : Option Filter → LogEvent → Bool
should_log none event = true
should_log (some accept) event = accept event

-- A `std::uint64_t` counter, one further.
abbrev pub bump : ℕ → ℕ
bump n = (n + 1) % 2 ^ 64
