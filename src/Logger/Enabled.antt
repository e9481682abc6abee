-- ===== src/Logger/Enabled.antt =====
-- Which calls reach the dispatcher.
use logspine.Prelude.{
  ◌≤◌, ◌≡◌, ◌≢◌, ◌↔◌, ◌⊎◌, inl, inr, true, false, List, Bytes, arith, Bool-cases,
}
use logspine.Level.{Level, underlying}
use logspine.Event.{Field, SourceLocation}
use logspine.Dispatcher.{DispatcherClass}
use logspine.Logger.{Logger, Surroundings, is_enabled_for, enabled, log, dispatch, make_event}

-- A level is enabled exactly when neither it nor the minimum is `off` and it is no less severe.
is_enabled_for_iff :
    (minimum severity : Level)
    → (is_enabled_for minimum severity ≡ true) ↔ (
        (underlying minimum ≢ 6)
        × (underlying severity ≢ 6)
        × (underlying minimum ≤ underlying severity))
unfolding is_enabled_for
is_enabled_for_iff minimum severity = (λ h. ground arith, λ h. ground arith)

module _ {D : Type 0} (c : DispatcherClass D) (l : Logger) (around : Surroundings) where
  -- A call hands the dispatcher its event if the level is enabled, and leaves it alone if not.
  log_lem :
      (severity : Level) (message : Bytes) (fields : List Field) (location : SourceLocation) (d : D)
      → ((enabled l severity ≡ true)
          × (log c l around severity message fields location d
              ≡ c.dispatch (make_event l around severity message fields location) d))
        ⊎ ((enabled l severity ≡ false) × (log c l around severity message fields location d ≡ d))
  unfolding log dispatch
  log_lem severity message fields location d = elim (Bool-cases (enabled l severity)) [
    | inl h ↦ inl (h, rw h)
    | inr h ↦ inr (h, rw h)
  ]
