-- ===== src/Logger/Lines.antt =====
-- A logger on a synchronous dispatcher with a console sink that writes JSON lines: what a program
-- that logs leaves on the two streams.
use logspine.Prelude.{
  ℕ, ◌≡◌, sym, ap, subst, ◌∙◌, leb, ◌&&◌, if◌then◌else◌, Bool, true, false, none, List, [], ◌∷◌,
  ◌++◌, map, append_assoc, append-nil, Bytes, arith, Bool-cases, inl, inr,
}
use logspine.Level.{Level, off, underlying, level_eq}
use logspine.Event.{LogEvent, Field, SourceLocation}
use logspine.Dispatcher.{SinkClass}
use logspine.SyncDispatcher.{SyncDispatcher, sync_dispatcher, call_all}
use logspine.SyncDispatcher
use logspine.Logger.{Logger, Surroundings, enabled, is_enabled_for, make_event, log}
use logspine.Logger
use logspine.Json.{Platform, to_json, to_json_lines_record}
use logspine.Json.Reading.{PrintsNumbers}
use logspine.Json.Lines.{split_lines, records, split_lines-records}
use logspine.Sinks.Console.{
  ConsoleOptions, Console, Stream, cout, cerr, json_lines, console_write, select_stream,
  console_text,
}

pub record Call : Type 0 where
  pub around : Surroundings
  pub severity : Level
  pub message : Bytes
  pub fields : List Field
  pub location : SourceLocation

-- `console_sink`, without a filter and a formatter.
abbrev pub console_class : Platform → ConsoleOptions → SinkClass Console
console_class p options = record {
  write = λ event s. (console_write p options none none event s, false);
  flush = λ s. (s, false);
}

abbrev pub json_console : Bool → ConsoleOptions
json_console use_stderr = record { format = json_lines; use_stderr_for_warnings = use_stderr }

module _ (p : Platform) (use_stderr : Bool) (l : Logger) where
  abbrev class : SinkClass Console
  class = console_class p (json_console use_stderr)

  abbrev step : Call → SyncDispatcher Console → SyncDispatcher Console
  step c = log (sync_dispatcher class) l c.around c.severity c.message c.fields c.location

  -- The calls of `log`, one after the other.
  unfoldable pub log_all : List Call → SyncDispatcher Console → SyncDispatcher Console
  log_all [] d = d
  log_all (c ∷ calls) d = log_all calls (step c d)

  abbrev pub event_of : Call → LogEvent
  event_of c = make_event l c.around c.severity c.message c.fields c.location

  -- Levels from `warn` on go to `std::cerr`, if the option says so.
  abbrev pub goes_to : Stream → Level → Bool
  goes_to cerr severity = use_stderr && leb 3 (underlying severity)
  goes_to cout severity = if use_stderr && leb 3 (underlying severity) then false else true

  -- The events of the calls whose level is enabled, for a stream.
  unfoldable pub events_for : Stream → List Call → List LogEvent
  events_for stream [] = []
  events_for stream (c ∷ calls) =
      let rest = events_for stream calls in
      if enabled l c.severity && goes_to stream c.severity then event_of c ∷ rest else rest

  abbrev pub content : Stream → Console → Bytes
  content cout s = s.out
  content cerr s = s.err

  -- What the sink writes for an event.
  console-content :
      (stream : Stream) (e : LogEvent) (s : Console)
      → level_eq e.severity off ≡ false
      → content stream (console_write p (json_console use_stderr) none none e s)
        ≡ content stream s ++ (if goes_to stream e.severity then to_json_lines_record p e else [])
  unfolding console_write select_stream console_text
  console-content cout e s on = ground (arith, append-nil s.out)
  console-content cerr e s on = ground (arith, append-nil s.err)

  enabled_on : (severity : Level) → enabled l severity ≡ true → level_eq severity off ≡ false
  unfolding enabled is_enabled_for
  enabled_on severity h = ground arith

  dispatch_only :
      (e : LogEvent) (k : ℕ) (d : SyncDispatcher Console)
      → d.sinks ≡ k ∷ []
      → (SyncDispatcher.dispatch class e d).store k ≡ (class.write e (d.store k)).0
  unfolding SyncDispatcher.dispatch call_all
  dispatch_only e k d only =
      subst
        (λ sinks.
          (call_all class (class.write e) sinks d.store d.failures).0 k
          ≡ (class.write e (d.store k)).0)
        (sym only) (ground arith)

  -- What one call leaves on a stream.
  abbrev line_of : Stream → Call → Bytes
  line_of stream c =
      if enabled l c.severity && goes_to stream c.severity
      then to_json_lines_record p (event_of c)
      else []

  step-content :
      (stream : Stream) (c : Call) (k : ℕ) (d : SyncDispatcher Console)
      → d.sinks ≡ k ∷ []
      → content stream ((step c d).store k) ≡ content stream (d.store k) ++ line_of stream c
  unfolding log Logger.dispatch make_event
  step-content stream c k d only = elim (Bool-cases (enabled l c.severity)) [
    | inl h ↦
        rw (h, dispatch_only (event_of c) k d only)
          (console-content stream (event_of c) (d.store k) (enabled_on c.severity h))
    | inr h ↦ rw h (sym (append-nil (content stream (d.store k))))
  ]

  step-sinks : (c : Call) (d : SyncDispatcher Console) → (step c d).sinks ≡ d.sinks
  unfolding log Logger.dispatch SyncDispatcher.dispatch
  step-sinks c d = elim (Bool-cases (enabled l c.severity)) [ inl h ↦ rw h | inr h ↦ rw h ]

  line_of-records :
      (stream : Stream) (c : Call) (calls : List Call)
      → line_of stream c ++ records p (events_for stream calls)
        ≡ records p (events_for stream (c ∷ calls))
  unfolding records events_for
  line_of-records stream c calls = ground arith

  log_all-content :
      (stream : Stream) (calls : List Call) (k : ℕ) (d : SyncDispatcher Console)
      → d.sinks ≡ k ∷ []
      → content stream ((log_all calls d).store k)
        ≡ content stream (d.store k) ++ records p (events_for stream calls)
  unfolding log_all events_for records
  log_all-content stream [] k d only = sym (append-nil (content stream (d.store k)))
  log_all-content stream (c ∷ calls) k d only =
      log_all-content stream calls k (step c d) (step-sinks c d ∙ only)
      ∙ ap (λ (t : Bytes). t ++ records p (events_for stream calls))
          (step-content stream c k d only)
      ∙ append_assoc (content stream (d.store k)) (line_of stream c)
          (records p (events_for stream calls))
      ∙ ap (λ (t : Bytes). content stream (d.store k) ++ t) (line_of-records stream c calls)

  -- Calls of a logger, one after the other, on a synchronous dispatcher whose one sink writes JSON
  -- lines to the console, where the platform prints numbers: each stream that was empty holds one
  -- line for each call whose level is enabled and goes to that stream, in the order of the calls,
  -- with the JSON text of the event of the call, and nothing else. With the option for it, the levels
  -- from `warn` on go to the error stream and the others to the standard stream, and without it all
  -- go to the standard stream.
  pub log_all_lines :
      (stream : Stream) (calls : List Call) (k : ℕ) (d : SyncDispatcher Console)
      → PrintsNumbers p
      → d.sinks ≡ k ∷ []
      → content stream (d.store k) ≡ []
      → split_lines [] (content stream ((log_all calls d).store k))
        ≡ (map (to_json p) (events_for stream calls), [])
  log_all_lines stream calls k d numbers only empty =
      ap (split_lines []) (
        log_all-content stream calls k d only
        ∙ ap (λ (t : Bytes). t ++ records p (events_for stream calls)) empty)
      ∙ split_lines-records p numbers (events_for stream calls)
