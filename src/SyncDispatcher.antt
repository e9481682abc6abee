-- ===== src/SyncDispatcher.antt =====
-- include/logspine/sync_dispatcher.hpp and src/sync_dispatcher.cpp. Each call holds the mutex from
-- its first line to its last, so a call is one step. `sinks_` holds shared pointers: two of them may
-- be one sink, so the sinks' states stand in a store.
pub mod Isolation
mod Tests
use logspine.Prelude.{ℕ, ◌==◌, if◌then◌else◌, Bool, List, [], ◌∷◌}
use logspine.Event.{LogEvent}
use logspine.Dispatcher.{SinkClass, DispatcherClass, bump}

pub record SyncDispatcher (S : Type 0) : Type 0 where
  pub sinks : List ℕ
  pub store : ℕ → S
  pub failures : ℕ

abbrev pub update : {S : Type 0} → (ℕ → S) → ℕ → S → ℕ → S
update f i a j = if i == j then a else f j

module _ {S : Type 0} (c : SinkClass S) where
  -- The loop over the sinks, with `sink_failures_` and the store as they go.
  unfoldable pub call_all : (S → S × Bool) → List ℕ → (ℕ → S) → ℕ → (ℕ → S) × ℕ
  call_all call [] store failures = (store, failures)
  call_all call (s ∷ sinks) store failures =
      let (after, threw) = call (store s) in
      call_all call sinks (update store s after) (if threw then bump failures else failures)

  unfoldable pub dispatch : LogEvent → SyncDispatcher S → SyncDispatcher S
  unfolding call_all
  dispatch event d =
      let (store, failures) = call_all (c.write event) d.sinks d.store d.failures in
      record d { store = store; failures = failures }

  unfoldable pub flush : SyncDispatcher S → SyncDispatcher S
  unfolding call_all
  flush d =
      let (store, failures) = call_all c.flush d.sinks d.store d.failures in
      record d { store = store; failures = failures }

  abbrev pub dropped_events : SyncDispatcher S → ℕ
  dropped_events d = 0

  abbrev pub sink_failures : SyncDispatcher S → ℕ
  sink_failures d = d.failures

  -- The class is an implementation of `dispatcher`.
  abbrev pub sync_dispatcher : DispatcherClass (SyncDispatcher S)
  sync_dispatcher = record {
    dispatch = dispatch;
    flush = flush;
    dropped_events = dropped_events;
    sink_failures = sink_failures;
  }
