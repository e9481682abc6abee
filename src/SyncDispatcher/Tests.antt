-- ===== src/SyncDispatcher/Tests.antt =====
-- A dispatcher with a sink that throws and one that stands twice in the list.
use logspine.Prelude.{ℕ, ◌+◌, ◌*◌, ◌%◌, ◌^◌, ◌≤◌, ◌==◌, ◌≡◌, none, [], ◌∷◌, codes, arith, length}
use logspine.Level.{warn}
use logspine.Event.{LogEvent}
use logspine.Dispatcher.{SinkClass}
use logspine.SyncDispatcher.{SyncDispatcher, dispatch}
use logspine.SyncDispatcher.Isolation.{
  count, times, throws, dispatch_isolates, dispatch_failures-le,
}

-- Sinks that count their writes; the one that starts at 100 throws.
abbrev counting : SinkClass ℕ
counting = record { write = λ event n. (n + 1, n == 100); flush = λ n. (n, n == 100) }

abbrev three_sinks : SyncDispatcher ℕ
three_sinks = record { sinks = 0 ∷ 1 ∷ 0 ∷ []; store = λ i. i * 100; failures = 0 }

abbrev event : LogEvent
event = record {
  severity = warn;
  logger_name = codes "checkout";
  message = codes "escaped \"message\"";
  timestamp = 5;
  thread_id = 1;
  location = none;
  fields = [];
  trace_id = none;
  span_id = none;
  correlation_id = none;
}

dispatch_isolates_example :
    ((i : ℕ)
      → (dispatch counting event three_sinks).store i
        ≡ times (count i three_sinks.sinks) (λ s. (counting.write event s).0) (three_sinks.store i))
    × ((dispatch counting event three_sinks).failures
        ≡ (three_sinks.failures
            + throws counting (counting.write event) three_sinks.sinks three_sinks.store)
          % 2 ^ 64)
    × ((dispatch counting event three_sinks).sinks ≡ three_sinks.sinks)
dispatch_isolates_example = dispatch_isolates counting event three_sinks (omega arith)

dispatch_failures-le_example :
    (three_sinks.failures ≤ (dispatch counting event three_sinks).failures)
    × ((dispatch counting event three_sinks).failures
        ≤ three_sinks.failures + length three_sinks.sinks)
dispatch_failures-le_example = dispatch_failures-le counting event three_sinks (omega arith)
