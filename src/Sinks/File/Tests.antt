-- ===== src/Sinks/File/Tests.antt =====
-- The file sink on a file system of texts.
use logspine.Prelude.{
  ℕ, ◌+◌, ◌<◌, ◌≡◌, ◌≢◌, inl, inr, refl, sym, ap, ◌∙◌, if◌then◌else◌, Bool, true, false, Option,
  none, some, [], ◌++◌, Bytes, codes, bytes_eq, bytes_eq_refl, bytes_eq_sound, length, arith,
  Bool-cases,
}
use logspine.Dispatcher.{should_log}
use logspine.Json.Tests.{platform, event}
use logspine.Sinks.Console.{json_lines}
use logspine.Sinks.File.{FileOptions, Filesystem, FileSink, file_text, file_write}
use logspine.Sinks.File.Rotation.{FileLaws}
use logspine.Sinks.File.Loop.{Shifts}
use logspine.Sinks.File.Write.{is_due, file_write_rotates, file_write_bounds}

abbrev Disk : Type 0
Disk = Bytes → Option Bytes

abbrev with_file : Bytes → Option Bytes → Disk → Disk
with_file a c s p = if bytes_eq p a then c else s p

with_file_at : (a : Bytes) (c : Option Bytes) (s : Disk) → with_file a c s a ≡ c
with_file_at a c s = ground (arith, bytes_eq_refl a)

with_file_else : (a p : Bytes) (c : Option Bytes) (s : Disk) → p ≢ a → with_file a c s p ≡ s p
with_file_else a p c s ne = elim (Bool-cases (bytes_eq p a)) [
  | inl e ↦ absurd (ne (bytes_eq_sound p a e))
  | inr e ↦ ground (arith, e)
]

abbrev text_or_empty : Option Bytes → Bytes
text_or_empty none = []
text_or_empty (some c) = c

abbrev is_there : Option Bytes → Bool
is_there none = false
is_there (some c) = true

abbrev size_of : Option Bytes → Option ℕ
size_of none = none
size_of (some c) = some (length c)

abbrev moved : Option Bytes → Bytes → Bytes → Disk → Disk
moved none a b s = s
moved (some c) a b s = with_file a none (with_file b (some c) s)

abbrev disk_fs : Filesystem Disk
disk_fs = record {
  open_stream =
      λ append a s. (with_file a (some (if append then text_or_empty (s a) else [])) s, true);
  close = λ a s. (s, true);
  put = λ a t s. (with_file a (some (text_or_empty (s a) ++ t)) s, true);
  flush = λ a s. (s, true);
  tellp = λ a s. size_of (s a);
  remove = λ a s. with_file a none s;
  exists = λ a s. is_there (s a);
  rename = λ a b s. moved (s a) a b s;
  file_size = λ a s. size_of (s a);
  read = λ a n s. text_or_empty (s a);
  overwrite = λ a c s. with_file a (some c) s;
  failure = codes "basic_ios::clear";
}

abbrev on_disk : Disk → Bytes → Option Bytes
on_disk s p = s p

disk_FileLaws : FileLaws disk_fs on_disk
disk_FileLaws = record {
  exists_none = λ p s e. ap is_there e;
  exists_some = λ p c s e. ap is_there e;
  rename_to = λ a b c s ne e.
      ap (λ o. moved o a b s b) e
      ∙ with_file_else a b none (with_file b (some c) s) (λ x. ne (sym x))
      ∙ with_file_at b (some c) s;
  rename_from =
      λ a b c s ne e. ap (λ o. moved o a b s a) e ∙ with_file_at a none (with_file b (some c) s);
  rename_else = λ a b p s ne ne'. moved_else a b p s (s a) ne ne';
  remove_at = λ a s. with_file_at a none s;
  remove_else = λ a p s ne. with_file_else a p none s ne;
  overwrite_at = λ a c s. with_file_at a (some c) s;
  overwrite_else = λ a c p s ne. with_file_else a p (some c) s ne;
  file_size_at = λ a c s e. ap size_of e;
  read_at = λ a c s e. ap text_or_empty e;
  close_good = λ a s. refl;
  close_keeps = λ a p s. refl;
  open_good = λ append a s. refl;
  truncate_at = λ a s. with_file_at a (some []) s;
  open_else = λ append a p s ne.
      with_file_else a p (some (if append then text_or_empty (s a) else [])) s ne;
  put_good = λ a t s. refl;
  put_at = λ a t c s e.
      with_file_at a (some (text_or_empty (s a) ++ t)) s ∙ ap (λ o. some (text_or_empty o ++ t)) e;
  put_else = λ a t p s ne. with_file_else a p (some (text_or_empty (s a) ++ t)) s ne;
}
  where
    moved_else :
        (a b p : Bytes) (s : Disk) (o : Option Bytes) → p ≢ a → p ≢ b → moved o a b s p ≡ s p
    moved_else a b p s none ne ne' = refl
    moved_else a b p s (some c) ne ne' =
        with_file_else a p none (with_file b (some c) s) ne ∙ with_file_else b p (some c) s ne'

abbrev options : FileOptions
options = record {
  path = codes "app.log";
  format = json_lines;
  append = true;
  max_file_size = 4;
  max_files = 2;
  compress_rotated = true;
}

-- Compression to one byte.
abbrev one_byte : Bytes → Option Bytes
one_byte text = some (codes "z")

abbrev sink_with : Bytes → FileSink Disk
sink_with text = record {
  options = options;
  throwing = true;
  files =
      with_file (codes "app.log") (some text)
        (with_file (codes "app.log.1.gz") (some (codes "y")) (λ p. none));
}

unfiltered : should_log none event ≡ true
unfiltered = refl

small_not_due : is_due disk_fs (sink_with (codes "abc")) ≡ false
unfolding is_due bytes_eq
small_not_due = refl

large_due : is_due disk_fs (sink_with (codes "abcde")) ≡ true
unfolding is_due bytes_eq
large_due = refl

file_write_rotates_example :
    let out =
      file_write disk_fs true one_byte platform none none event (sink_with (codes "abcde")) in
    (out.1 ≡ none)
    × Shifts disk_fs on_disk disk_FileLaws true one_byte
        (sink_with (codes "abcde"))
        (codes "abcde")
        (file_text platform options none event)
        out.0
file_write_rotates_example =
    file_write_rotates disk_fs on_disk disk_FileLaws true one_byte platform none none event
      (sink_with (codes "abcde")) (codes "abcde") unfiltered
      (with_file_at (codes "app.log") (some (codes "abcde"))
        (with_file (codes "app.log.1.gz") (some (codes "y")) (λ p. none)))
      large_due (omega arith)

file_write_bounds_example :
    (log : Bytes) × ((file_write disk_fs true one_byte platform none none event
          (sink_with (codes "abcde"))).0.files
        (codes "app.log")
      ≡ some log)
    × (length log < 4 + length (file_text platform options none event))
file_write_bounds_example =
    file_write_bounds disk_fs on_disk disk_FileLaws true one_byte platform none none event
      (sink_with (codes "abcde")) (codes "abcde") unfiltered
      (with_file_at (codes "app.log") (some (codes "abcde"))
        (with_file (codes "app.log.1.gz") (some (codes "y")) (λ p. none)))
      (omega arith) (omega arith) told
  where
    told :
        size_of ((sink_with (codes "abcde")).files (codes "app.log"))
        ≡ some (length (codes "abcde"))
    told = ap size_of (
        with_file_at (codes "app.log") (some (codes "abcde"))
          (with_file (codes "app.log.1.gz") (some (codes "y")) (λ p. none)))
