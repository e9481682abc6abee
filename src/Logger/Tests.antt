-- ===== src/Logger/Tests.antt =====
-- Runs of the logger.
use logspine.Prelude.{ℕ, ◌+◌, ◌≡◌, refl, true, List, [], ◌∷◌, Bytes, codes, map}
use logspine.Level.{debug, info, warn}
use logspine.Event.{LogEvent, Field, SourceLocation, null, text, kv}
use logspine.Dispatcher.{DispatcherClass}
use logspine.SyncDispatcher.{SyncDispatcher}
use logspine.Json.{to_json}
use logspine.Json.Lines.{split_lines}
use logspine.Json.Tests.{platform, platform-PrintsNumbers}
use logspine.Sinks.Console.{Console, cerr}
use logspine.Logger.{Logger, Surroundings, detail_log}
use logspine.Logger.Lines.{Call, log_all, events_for, content, log_all_lines}

-- A dispatcher that keeps what it gets.
abbrev keeping : DispatcherClass (List LogEvent)
keeping = record {
  dispatch = λ event events. event ∷ events;
  flush = λ events. events;
  dropped_events = λ events. 0;
  sink_failures = λ events. 0;
}

abbrev checkout : Logger
checkout = record { name = codes "checkout"; minimum_level = info }

abbrev around : Surroundings
around = record { mdc = kv (codes "request") null ∷ []; now = 17; this_thread = 1 }

abbrev here : SourceLocation
here = record { file_name = codes "main.cpp"; line = 12; function_name = codes "main" }

abbrev customer : List Field
customer = kv (codes "customer") (text (codes "alice")) ∷ []

-- Arguments that count how often they are evaluated.
abbrev counted : ℕ → Bytes × List Field × ℕ
counted n = (codes "paid", customer, n + 1)

disabled_macro : detail_log keeping checkout around debug here counted (0, []) ≡ (0, [])
unfolding detail_log
disabled_macro = refl

enabled_macro : (detail_log keeping checkout around warn here counted (0, [])).0 ≡ 1
unfolding detail_log
enabled_macro = refl

-- A dispatcher with one console sink, on which nothing is written yet.
abbrev console_only : SyncDispatcher Console
console_only = record { sinks = 0 ∷ []; store = λ i. record { out = []; err = [] }; failures = 0 }

abbrev calls : List Call
calls =
    record {
      around = around;
      severity = debug;
      message = codes "loaded";
      fields = [];
      location = here;
    }
    ∷ record {
      around = around;
      severity = info;
      message = codes "opened";
      fields = [];
      location = here;
    }
    ∷ record {
      around = around;
      severity = warn;
      message = codes "declined";
      fields = customer;
      location = here;
    }
    ∷ []

log_all_lines_example :
    split_lines [] (
      content platform true checkout cerr
        ((log_all platform true checkout calls console_only).store 0))
    ≡ (map (to_json platform) (events_for platform true checkout cerr calls), [])
log_all_lines_example =
    log_all_lines platform true checkout cerr calls 0 console_only platform-PrintsNumbers refl refl
