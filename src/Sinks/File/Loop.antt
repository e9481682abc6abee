-- ===== src/Sinks/File/Loop.antt =====
-- What the loop of a rotation does to the files, and what follows it.
use native.Mathlib.Decide.{ℕ_discrete}
use logspine.Prelude.{
  ℕ, zero, suc, ◌<◌, ◌≤◌, ◌≡◌, ◌≢◌, ◌⊎◌, inl, inr, refl, sym, subst, ◌∙◌, Bool, false, Option, none,
  some, [], Bytes, arith,
}
use logspine.Sinks.File.{
  FileOptions, Filesystem, FileSink, get_rotated_path, rotate_step, rotate_loop, open_file, rotate,
}
use logspine.Sinks.File.Paths.{rotated_ne_path}
use logspine.Sinks.File.Rotation.{
  FileLaws, archive_text, at_ne, path_ne, step_shifts, first_archives,
}

module _ {S : Type 0} (fs : Filesystem S) (content : S → Bytes → Option Bytes)
    (laws : FileLaws fs content) (with_zlib : Bool) (gzip : Bytes → Option Bytes) where
  -- The files after the loop from number `n` down: the log is the first, every other is the one
  -- before it, and the remaining paths have what they had.
  abbrev pub Rotated : FileOptions → ℕ → Bytes → S → S → Type 0
  Rotated options n text s t =
      (content t (get_rotated_path with_zlib options 1)
        ≡ some (archive_text with_zlib gzip options text))
      × ((j : ℕ)
          → 1 ≤ j
          → j < n
          → content t (get_rotated_path with_zlib options (suc j))
            ≡ content s (get_rotated_path with_zlib options j))
      × ((p : Bytes)
          → p ≢ options.path
          → ((j : ℕ) → 1 ≤ j → j ≤ n → p ≢ get_rotated_path with_zlib options j)
          → content t p ≡ content s p)

  rotate_loop-Rotated :
      (options : FileOptions) (text : Bytes) (i : ℕ) (s : S)
      → (suc i ≡ options.max_files)
        ⊎ (content s (get_rotated_path with_zlib options (suc i)) ≡ none)
      → content s options.path ≡ some text
      → Rotated options (suc i) text s (rotate_loop fs with_zlib gzip options (suc i) s)
  unfolding rotate_loop
  rotate_loop-Rotated options text zero s last e =
      let first = first_archives fs content laws with_zlib gzip options text s e in
      (
        first.0,
        λ j lo hi. absurd (omega arith),
        λ p ne others. first.1 p ne (others 1 (omega arith) (omega arith)),
      )
  rotate_loop-Rotated options text (suc i) s last e =
      let t = rotate_step fs with_zlib gzip options (suc (suc i)) s in
      let step = step_shifts fs content laws with_zlib gzip options i s last in
      let name = λ (n : ℕ). get_rotated_path with_zlib options n in
      let apart = at_ne fs content laws with_zlib gzip options in
      let log = path_ne fs content laws with_zlib gzip options in
      let rest =
        rotate_loop-Rotated options text i t (inr step.1)
          (step.2 options.path (log (suc (suc i))) (log (suc i)) ∙ e) in
      let highest =
        rest.2 (name (suc (suc i))) (λ x. log (suc (suc i)) (sym x))
          (λ j lo hi. apart (suc (suc i)) j (λ x. omega arith))
        ∙ step.0 in
      (
        rest.0,
        λ j lo hi. elim (ℕ_discrete j (suc i)) [
          | yes top ↦
              subst
                (λ (m : ℕ).
                  content (rotate_loop fs with_zlib gzip options (suc i) t) (name (suc m))
                  ≡ content s (name m))
                (sym top) highest
          | no below ↦
              rest.1 j lo (omega arith)
              ∙ step.2 (name j) (apart j (suc (suc i)) (λ x. omega arith)) (apart j (suc i) below)
        ],
        λ p ne others.
            rest.2 p ne (λ j lo hi. others j lo (omega arith))
            ∙ step.2 p (others (suc (suc i)) (omega arith) (omega arith))
                (others (suc i) (omega arith) (omega arith)),
      )

  -- The files after a rotation.
  abbrev pub After : FileSink S → Bytes → FileSink S × Option Bytes → Type 0
  After k text out =
      (out.1 ≡ none)
      × (out.0.options ≡ record (k.options) { append = false })
      × (content out.0.files k.options.path ≡ some [])
      × ((p : Bytes)
          → p ≢ k.options.path
          → content out.0.files p
            ≡ content
                (rotate_loop fs with_zlib gzip k.options k.options.max_files
                  (fs.close k.options.path k.files).0)
                p)

  rotate-After : (k : FileSink S) (text : Bytes) → After k text (rotate fs with_zlib gzip k)
  unfolding rotate open_file
  rotate-After k text =
      let closed = fs.close k.options.path k.files in
      let path = k.options.path in
      let moved = rotate_loop fs with_zlib gzip k.options k.options.max_files closed.0 in
      let good = laws.close_good path k.files in
      let opened = laws.open_good false path moved in
      (
        ground (arith, good, opened),
        ground (arith, good, opened),
        ground (arith, good, opened, laws.truncate_at path moved),
        λ p ne. ground (arith, good, opened, laws.open_else false path p moved ne),
      )

  -- The log is written anew: its text, or its compressed text, is the first of the rotated files;
  -- each other is the one that was before it, the oldest is gone, and no other file changes.
  abbrev pub Shifts : FileSink S → Bytes → Bytes → FileSink S → Type 0
  Shifts k text log out =
      (out.options ≡ record (k.options) { append = false })
      × (content out.files k.options.path ≡ some log)
      × (content out.files (get_rotated_path with_zlib k.options 1)
          ≡ some (archive_text with_zlib gzip k.options text))
      × ((j : ℕ)
          → 1 ≤ j
          → j < k.options.max_files
          → content out.files (get_rotated_path with_zlib k.options (suc j))
            ≡ content k.files (get_rotated_path with_zlib k.options j))
      × ((p : Bytes)
          → p ≢ k.options.path
          → ((j : ℕ) → 1 ≤ j → j ≤ k.options.max_files → p ≢ get_rotated_path with_zlib k.options j)
          → content out.files p ≡ content k.files p)

  loop-Rotated :
      (options : FileOptions) (text : Bytes) (n : ℕ) (s : S)
      → 0 < n
      → n ≡ options.max_files
      → content s options.path ≡ some text
      → Rotated options n text s (rotate_loop fs with_zlib gzip options n s)
  loop-Rotated options text zero s pos all e = absurd (omega arith)
  loop-Rotated options text (suc i) s pos all e = rotate_loop-Rotated options text i s (inl all) e

  pub rotate-Shifts :
      (k : FileSink S) (text : Bytes)
      → content k.files k.options.path ≡ some text
      → 0 < k.options.max_files
      → ((rotate fs with_zlib gzip k).1 ≡ none) × Shifts k text [] (rotate fs with_zlib gzip k).0
  rotate-Shifts k text e some_files =
      let path = k.options.path in
      let closed = (fs.close path k.files).0 in
      let after = rotate-After k text in
      let moved =
        loop-Rotated k.options text k.options.max_files closed some_files refl
          (laws.close_keeps path path k.files ∙ e) in
      let name = λ (n : ℕ). get_rotated_path with_zlib k.options n in
      let other = rotated_ne_path with_zlib k.options in
      (
        after.0,
        (
          after.1,
          after.2,
          after.3 (name 1) (other 1) ∙ moved.0,
          λ j lo hi.
              after.3 (name (suc j)) (other (suc j))
              ∙ moved.1 j lo hi
              ∙ laws.close_keeps path (name j) k.files,
          λ p ne others. after.3 p ne ∙ moved.2 p ne others ∙ laws.close_keeps path p k.files,
        ),
      )
