-- ===== src/Sinks/File/Write.antt =====
-- What `file_sink::write` does to the files.
use logspine.Prelude.{
  suc, ◌+◌, ◌<◌, ◌≡◌, ◌≢◌, inl, inr, refl, sym, ap, subst, ◌∙◌, leb, if◌then◌else◌, ◌==◌, Bool,
  true, false, Option, none, some, [], ◌++◌, Bytes, length, length-append, arith, Option-cases,
  Bool-cases,
}
use logspine.Event.{LogEvent}
use logspine.Dispatcher.{Filter, Formatter, should_log}
use logspine.Json.{Platform}
use logspine.Sinks.File.{
  Filesystem, FileSink, get_rotated_path, rotate, rotate_if_needed, file_text, put_text, file_write,
}
use logspine.Sinks.File.Rotation.{FileLaws}
use logspine.Sinks.File.Paths.{rotated_ne_path}
use logspine.Sinks.File.Loop.{Shifts, rotate-Shifts}

-- `write` rotates first.
unfoldable pub is_due : {S : Type 0} → Filesystem S → FileSink S → Bool
is_due fs k =
    if k.options.max_file_size == 0 then false else elim (fs.tellp k.options.path k.files) [
      | none ↦ false
      | some n ↦ leb k.options.max_file_size n
    ]

module _ {S : Type 0} (fs : Filesystem S) (content : S → Bytes → Option Bytes)
    (laws : FileLaws fs content) (with_zlib : Bool) (gzip : Bytes → Option Bytes) (p : Platform)
    (filter : Option Filter) (formatter : Option Formatter) (event : LogEvent) (k : FileSink S)
    (text : Bytes) (passes : should_log filter event ≡ true)
    (here : content k.files k.options.path ≡ some text) where
  abbrev line : Bytes
  line = file_text p k.options formatter event

  due_rotates :
      is_due fs k ≡ true → rotate_if_needed fs with_zlib gzip k ≡ rotate fs with_zlib gzip k
  unfolding is_due rotate_if_needed
  due_rotates e = elim (Option-cases (fs.tellp k.options.path k.files)) [
    | inl f ↦ ground (arith, f)
    | inr (n, f) ↦ ground (arith, f)
  ]

  not_due_stays : is_due fs k ≡ false → rotate_if_needed fs with_zlib gzip k ≡ (k, none)
  unfolding is_due rotate_if_needed
  not_due_stays e = elim (Option-cases (fs.tellp k.options.path k.files)) [
    | inl f ↦ ground (arith, f)
    | inr (n, f) ↦ ground (arith, f)
  ]

  -- `stream_ << t` on a file that holds `old`.
  put_appends :
      (m : FileSink S) (old t : Bytes)
      → content m.files k.options.path ≡ some old
      → m.options.path ≡ k.options.path
      → let out = put_text fs with_zlib gzip t m in
        (out.1 ≡ none)
        × (out.0.options ≡ m.options)
        × (content out.0.files k.options.path ≡ some (old ++ t))
        × ((q : Bytes) → q ≢ k.options.path → content out.0.files q ≡ content m.files q)
  unfolding put_text
  put_appends m old t e same =
      let good = laws.put_good m.options.path t m.files in
      let there : content m.files m.options.path ≡ some old =
        subst (λ a. content m.files a ≡ some old) (sym same) e in
      let added = laws.put_at m.options.path t old m.files there in
      let added_here : content (fs.put m.options.path t m.files).0 k.options.path
          ≡ some (old ++ t) =
        subst (λ a. content (fs.put m.options.path t m.files).0 a ≡ some (old ++ t)) same added in
      (
        ground (arith, good),
        ground (arith, good),
        ground (arith, good, added_here),
        λ q ne. ground (arith, good, laws.put_else m.options.path t q m.files (λ x. ne (x ∙ same))),
      )

  writes :
      (m : FileSink S)
      → rotate_if_needed fs with_zlib gzip k ≡ (m, none)
      → file_write fs with_zlib gzip p filter formatter event k
        ≡ put_text fs with_zlib gzip (file_text p m.options formatter event) m
  unfolding file_write
  writes m e = ground (arith, passes, e)

  -- `write` of an event that passes the filter, where no call fails (FileLaws), the log exists,
  -- and the file is below the size of the options or these set none: the event's text stands at
  -- the end of the log, and no other file changes.
  file_write_appends :
      is_due fs k ≡ false
      → let out = file_write fs with_zlib gzip p filter formatter event k in
        (out.1 ≡ none)
        × (content out.0.files k.options.path ≡ some (text ++ line))
        × ((q : Bytes) → q ≢ k.options.path → content out.0.files q ≡ content k.files q)
  file_write_appends due =
      let added = put_appends k text line here refl in
      rw (writes k (not_due_stays due)) (added.0, added.2, added.3)

  same_line :
      (m : FileSink S)
      → m.options ≡ record (k.options) { append = false }
      → file_text p m.options formatter event ≡ line
  unfolding file_text
  same_line m e = ap (λ o. file_text p o formatter event) e ∙ plain formatter
    where
      plain :
          (f : Option Formatter)
          → file_text p (record (k.options) { append = false }) f event
            ≡ file_text p k.options f event
      plain none = refl
      plain (some format) = refl

  -- `write` of an event that passes the filter, where no call fails (FileLaws), the log exists, at
  -- least one file is kept, and the file has reached the size of the options: the log holds just
  -- the event's text; what it held, or that compressed, is the first of the rotated files; each
  -- other is the one that was before it, the oldest is gone, and no other file changes.
  pub file_write_rotates :
      is_due fs k ≡ true
      → 0 < k.options.max_files
      → let out = file_write fs with_zlib gzip p filter formatter event k in
        (out.1 ≡ none) × Shifts fs content laws with_zlib gzip k text line out.0
  file_write_rotates due some_files =
      let m = (rotate fs with_zlib gzip k).0 in
      let (good, (kept, empty, first, shifted, others)) =
        rotate-Shifts fs content laws with_zlib gzip k text here some_files in
      let turned : rotate_if_needed fs with_zlib gzip k ≡ (m, none) =
        due_rotates due ∙ ap (λ e. (m, e)) good in
      let other = rotated_ne_path with_zlib k.options in
      let added = put_appends m [] line empty (ap (λ o. o.path) kept) in
      rw (writes m turned, same_line m kept)
        (
          added.0,
          (
            added.1 ∙ kept,
            added.2,
            added.3 (get_rotated_path with_zlib k.options 1) (other 1) ∙ first,
            λ j lo hi.
                added.3 (get_rotated_path with_zlib k.options (suc j)) (other (suc j))
                ∙ shifted j lo hi,
            λ q ne far. added.3 q ne ∙ others q ne far,
          ),
        )

  not_due_below :
      0 < k.options.max_file_size
      → fs.tellp k.options.path k.files ≡ some (length text)
      → is_due fs k ≡ false
      → length text < k.options.max_file_size
  unfolding is_due
  not_due_below limited tell due = ground (arith, tell)

  -- `write` of an event that passes the filter, where no call fails (FileLaws), the log exists, at
  -- least one file is kept and the sink has a limit: afterwards the log is shorter than the limit
  -- and the text of the event together, whatever its length before, if `tellp` gives the length of
  -- the file.
  pub file_write_bounds :
      0 < k.options.max_files
      → 0 < k.options.max_file_size
      → fs.tellp k.options.path k.files ≡ some (length text)
      → (log : Bytes) × (content
            (file_write fs with_zlib gzip p filter formatter event k).0.files
            k.options.path
          ≡ some log)
        × (length log < k.options.max_file_size + length line)
  file_write_bounds some_files limited tell = elim (Bool-cases (is_due fs k)) [
    | inl due ↦ (line, (file_write_rotates due some_files).1.1, omega arith)
    | inr due ↦ (
      text ++ line,
      (file_write_appends due).1,
      omega (arith, length-append text line, not_due_below limited tell due),
    )
  ]
