-- ===== src/Sinks/File.antt =====
-- src/sinks/file_sink.cpp, with the rotation of its files. The file streams and std::filesystem are
-- parameters, on a state of the file system.
pub mod Paths
pub mod Rotation
pub mod Loop
pub mod Write
mod Tests
use logspine.Prelude.{
  ℕ, zero, suc, ◌-◌, ltb, ◌==◌, ◌&&◌, if◌then◌else◌, Bool, true, false, Option, none, some, List,
  [], ◌∷◌, ◌++◌, Bytes, codes,
}
use logspine.Decimal.{decimal}
use logspine.Event.{LogEvent}
use logspine.Dispatcher.{Filter, Formatter, should_log}
use logspine.Json.{Platform, to_json_lines_record, format_human_readable, push_back}
use logspine.Sinks.Console.{SinkFormat, human, json_lines}

-- `file_sink_options`
pub record FileOptions : Type 0 where
  pub path : Bytes
  pub format : SinkFormat
  pub append : Bool
  pub max_file_size : ℕ
  pub max_files : ℕ
  pub compress_rotated : Bool

-- The calls on the stream of a path, and those on files. A Boolean says whether the stream is good
-- afterwards; `tellp` has no value where it is negative, and `file_size` none on an error. The errors
-- of `remove`, `exists` and `rename` are not looked at.
pub record Filesystem (S : Type 0) : Type 0 where
  pub open_stream : Bool → Bytes → S → S × Bool
  pub close : Bytes → S → S × Bool
  pub put : Bytes → Bytes → S → S × Bool
  pub flush : Bytes → S → S × Bool
  pub tellp : Bytes → S → Option ℕ
  pub remove : Bytes → S → S
  pub exists : Bytes → S → Bool
  pub rename : Bytes → Bytes → S → S
  pub file_size : Bytes → S → Option ℕ
  pub read : Bytes → ℕ → S → Bytes
  -- `std::ofstream out(target, …trunc)` and `out.write`
  pub overwrite : Bytes → Bytes → S → S
  -- the text of `std::ios_base::failure`
  pub failure : Bytes

-- The stream throws once `exceptions` was called.
pub record FileSink (S : Type 0) : Type 0 where
  pub options : FileOptions
  pub throwing : Bool
  pub files : S

-- `get_rotated_path`; the Boolean is `LOGSPINE_WITH_ZLIB`.
unfoldable pub get_rotated_path : Bool → FileOptions → ℕ → Bytes
get_rotated_path with_zlib options index =
    let p = options.path ++ (codes "." ++ decimal index) in
    if with_zlib && options.compress_rotated then p ++ codes ".gz" else p

-- The text of an event.
unfoldable pub file_text : Platform → FileOptions → Option Formatter → LogEvent → Bytes
file_text p options (some format) event = format event
file_text p options none event = elim options.format [
  | json_lines ↦ to_json_lines_record p event
  | human ↦ push_back 0x0A (format_human_readable p event)
]

-- `gzip` is `gzip_compress`, with no text where it fails.
module _ {S : Type 0} (fs : Filesystem S) (with_zlib : Bool) (gzip : Bytes → Option Bytes) where
  -- The option is the text of an exception.
  unfoldable pub open_file : FileSink S → FileSink S × Option Bytes
  open_file k =
      let (files, opened) = fs.open_stream k.options.append k.options.path k.files in
      elim opened [
        | true ↦ (record k { throwing = true; files = files }, none)
        | false ↦ (
          record k { files = files },
          some (if k.throwing then fs.failure else codes "file_sink could not open output file"),
        )
      ]

  -- The constructor.
  unfoldable pub file_sink : FileOptions → S → FileSink S × Option Bytes
  unfolding open_file
  file_sink options files =
      open_file (record { options = options; throwing = false; files = files })

  -- The log itself becomes the first of the rotated files.
  unfoldable pub archive : FileOptions → Bytes → S → S
  archive options target s =
      let plain = fs.rename options.path target s in
      let packed : S = elim (fs.file_size options.path s) [
        | none ↦ plain
        | some sz ↦ elim (gzip (fs.read options.path sz s)) [
          | some compressed ↦ fs.overwrite target compressed s
          | none ↦ plain
        ]
      ] in
      if with_zlib && options.compress_rotated then packed else plain

  -- The body of the loop, for `i > 0`.
  unfoldable pub rotate_step : FileOptions → ℕ → S → S
  unfolding archive get_rotated_path
  rotate_step options i s =
      let target = get_rotated_path with_zlib options i in
      let source = get_rotated_path with_zlib options (i - 1) in
      let s1 = if i == options.max_files then fs.remove target s else s in
      if ltb 1 i
      then if fs.exists source s1 then fs.rename source target s1 else s1
      else if fs.exists options.path s1
      then archive options target s1
      else s1

  unfoldable pub rotate_loop : FileOptions → ℕ → S → S
  unfolding rotate_step
  rotate_loop options zero s = s
  rotate_loop options (suc i) s = rotate_loop options i (rotate_step options (suc i) s)

  -- What `rotate_if_needed` does once the file is large enough.
  unfoldable pub rotate : FileSink S → FileSink S × Option Bytes
  unfolding open_file rotate_loop
  rotate k =
      let (s, closed) = fs.close k.options.path k.files in
      let rotated = rotate_loop k.options k.options.max_files s in
      elim closed [
        | true ↦
            open_file
              (record k { options = record (k.options) { append = false }; files = rotated })
        | false ↦ (record k { files = s }, some fs.failure)
      ]

  unfoldable pub rotate_if_needed : FileSink S → FileSink S × Option Bytes
  unfolding rotate
  rotate_if_needed k =
      let big : FileSink S × Option Bytes = rotate k in
      let by_size : FileSink S × Option Bytes = elim (fs.tellp k.options.path k.files) [
        | none ↦ (k, none)
        | some n ↦ if ltb n k.options.max_file_size then (k, none) else big
      ] in
      if k.options.max_file_size == 0 then (k, none) else by_size

  -- `stream_ << …`
  unfoldable pub put_text : Bytes → FileSink S → FileSink S × Option Bytes
  put_text text k =
      let (files, good) = fs.put k.options.path text k.files in
      elim good [
        | true ↦ (record k { files = files }, none)
        | false ↦ (record k { files = files }, some fs.failure)
      ]

  -- `write`
  unfoldable pub file_write :
      Platform
      → Option Filter
      → Option Formatter
      → LogEvent
      → FileSink S
      → FileSink S × Option Bytes
  unfolding rotate_if_needed file_text put_text
  file_write p filter formatter event k =
      let (rotated, error) = rotate_if_needed k in
      let written : FileSink S × Option Bytes = elim error [
        | some what ↦ (rotated, some what)
        | none ↦ put_text (file_text p rotated.options formatter event) rotated
      ] in
      if should_log filter event then written else (k, none)

  -- `flush`
  unfoldable pub file_flush : FileSink S → FileSink S × Option Bytes
  file_flush k =
      let (files, good) = fs.flush k.options.path k.files in
      elim good [
        | true ↦ (record k { files = files }, none)
        | false ↦ (record k { files = files }, some fs.failure)
      ]
