-- ===== src/Sinks/File/Rotation.antt =====
-- A rotation moves every file one place on.
use logspine.Prelude.{
  ℕ, suc, ◌≡◌, ◌≢◌, ◌⊎◌, inl, inr, sym, subst, ◌∙◌, ◌==◌, ◌&&◌, if◌then◌else◌, Bool, true, false,
  Option, none, some, [], ◌++◌, Bytes, length, arith, Option-cases, Bool-cases,
}
use logspine.Sinks.File.{FileOptions, Filesystem, get_rotated_path, archive, rotate_step}
use logspine.Sinks.File.Paths.{rotated_ne_path, rotated_inj}

-- The calls where none of them fails; `content` is the text of a file, where there is one.
pub record FileLaws {S : Type 0} (fs : Filesystem S) (content : S → Bytes → Option Bytes)
    : Type 0 where
  pub exists_none : (p : Bytes) (s : S) → content s p ≡ none → fs.exists p s ≡ false
  pub exists_some : (p c : Bytes) (s : S) → content s p ≡ some c → fs.exists p s ≡ true
  pub rename_to :
      (a b c : Bytes) (s : S) → a ≢ b → content s a ≡ some c → content (fs.rename a b s) b ≡ some c
  pub rename_from :
      (a b c : Bytes) (s : S) → a ≢ b → content s a ≡ some c → content (fs.rename a b s) a ≡ none
  pub rename_else :
      (a b p : Bytes) (s : S) → p ≢ a → p ≢ b → content (fs.rename a b s) p ≡ content s p
  pub remove_at : (a : Bytes) (s : S) → content (fs.remove a s) a ≡ none
  pub remove_else : (a p : Bytes) (s : S) → p ≢ a → content (fs.remove a s) p ≡ content s p
  pub overwrite_at : (a c : Bytes) (s : S) → content (fs.overwrite a c s) a ≡ some c
  pub overwrite_else :
      (a c p : Bytes) (s : S) → p ≢ a → content (fs.overwrite a c s) p ≡ content s p
  pub file_size_at :
      (a c : Bytes) (s : S) → content s a ≡ some c → fs.file_size a s ≡ some (length c)
  pub read_at : (a c : Bytes) (s : S) → content s a ≡ some c → fs.read a (length c) s ≡ c
  pub close_good : (a : Bytes) (s : S) → (fs.close a s).1 ≡ true
  pub close_keeps : (a p : Bytes) (s : S) → content (fs.close a s).0 p ≡ content s p
  pub open_good : (append : Bool) (a : Bytes) (s : S) → (fs.open_stream append a s).1 ≡ true
  pub truncate_at : (a : Bytes) (s : S) → content (fs.open_stream false a s).0 a ≡ some []
  pub open_else :
      (append : Bool) (a p : Bytes) (s : S)
      → p ≢ a
      → content (fs.open_stream append a s).0 p ≡ content s p
  pub put_good : (a t : Bytes) (s : S) → (fs.put a t s).1 ≡ true
  pub put_at :
      (a t c : Bytes) (s : S) → content s a ≡ some c → content (fs.put a t s).0 a ≡ some (c ++ t)
  pub put_else : (a t p : Bytes) (s : S) → p ≢ a → content (fs.put a t s).0 p ≡ content s p

-- The text of the first rotated file.
abbrev pub archive_text : Bool → (Bytes → Option Bytes) → FileOptions → Bytes → Bytes
archive_text with_zlib gzip options text =
    let packed : Bytes = elim (gzip text) [ some compressed ↦ compressed | none ↦ text ] in
    if with_zlib && options.compress_rotated then packed else text

module _ {S : Type 0} (fs : Filesystem S) (content : S → Bytes → Option Bytes)
    (laws : FileLaws fs content) (with_zlib : Bool) (gzip : Bytes → Option Bytes)
    (options : FileOptions) where
  abbrev pub at : ℕ → Bytes
  at i = get_rotated_path with_zlib options i

  pub at_ne : (i j : ℕ) → i ≢ j → at i ≢ at j
  at_ne i j ne e = ne (rotated_inj with_zlib options i j e)

  pub path_ne : (i : ℕ) → options.path ≢ at i
  path_ne i e = rotated_ne_path with_zlib options i (sym e)

  -- The oldest file goes.
  abbrev vacate : ℕ → S → S
  vacate i s = if i == options.max_files then fs.remove (at i) s else s

  vacate-at :
      (i : ℕ) (s : S)
      → (i ≡ options.max_files) ⊎ (content s (at i) ≡ none)
      → content (vacate i s) (at i) ≡ none
  vacate-at i s (inl last) = ground (arith, laws.remove_at (at i) s)
  vacate-at i s (inr gone) = ground (arith, laws.remove_at (at i) s)

  vacate-else : (i : ℕ) (s : S) (p : Bytes) → p ≢ at i → content (vacate i s) p ≡ content s p
  vacate-else i s p ne = ground (arith, laws.remove_else (at i) p s ne)

  -- An older file, number `i + 1`, moves one place on.
  abbrev pub Shifted : ℕ → S → S → Type 0
  Shifted i s t =
      (content t (at (suc (suc i))) ≡ content s (at (suc i)))
      × (content t (at (suc i)) ≡ none)
      × ((p : Bytes) → p ≢ at (suc (suc i)) → p ≢ at (suc i) → content t p ≡ content s p)

  module _ (i : ℕ) (s : S)
      (last : (suc (suc i) ≡ options.max_files) ⊎ (content s (at (suc (suc i))) ≡ none)) where
    abbrev emptied : S
    emptied = vacate (suc (suc i)) s

    apart : at (suc i) ≢ at (suc (suc i))
    apart = at_ne (suc i) (suc (suc i)) (λ e. omega arith)

    same : (p : Bytes) → p ≢ at (suc (suc i)) → content emptied p ≡ content s p
    same = vacate-else (suc (suc i)) s

    missing_shifts : content emptied (at (suc i)) ≡ none → Shifted i s emptied
    missing_shifts e =
        (vacate-at (suc (suc i)) s last ∙ sym e ∙ same (at (suc i)) apart, e, λ p ne ne'. same p ne)

    renamed_shifts :
        (c : Bytes)
        → content emptied (at (suc i)) ≡ some c
        → Shifted i s (fs.rename (at (suc i)) (at (suc (suc i))) emptied)
    renamed_shifts c e = (
      laws.rename_to (at (suc i)) (at (suc (suc i))) c emptied apart e
          ∙ sym e
          ∙ same (at (suc i)) apart,
      laws.rename_from (at (suc i)) (at (suc (suc i))) c emptied apart e,
      λ p ne ne'. laws.rename_else (at (suc i)) (at (suc (suc i))) p emptied ne' ne ∙ same p ne,
    )

    pub step_shifts : Shifted i s (rotate_step fs with_zlib gzip options (suc (suc i)) s)
    unfolding rotate_step
    step_shifts = elim (Option-cases (content emptied (at (suc i)))) [
      | inl e ↦
          subst (Shifted i s) (ground (arith, laws.exists_none (at (suc i)) emptied e))
            (missing_shifts e)
      | inr (c, e) ↦
          subst (Shifted i s) (ground (arith, laws.exists_some (at (suc i)) c emptied e))
            (renamed_shifts c e)
    ]

  -- The log goes to the first place.
  abbrev pub Archived : Bytes → S → S → Type 0
  Archived text s t =
      (content t (at 1) ≡ some (archive_text with_zlib gzip options text))
      × ((p : Bytes) → p ≢ options.path → p ≢ at 1 → content t p ≡ content s p)

  archive-Archived :
      (text : Bytes) (s : S)
      → content s options.path ≡ some text
      → Archived text s (archive fs with_zlib gzip options (at 1) s)
  unfolding archive
  archive-Archived text s e =
      let renamed = laws.rename_to options.path (at 1) text s (path_ne 1) e in
      let size = laws.file_size_at options.path text s e in
      let read = laws.read_at options.path text s e in
      elim (Bool-cases (with_zlib && options.compress_rotated)) [
        | inr c ↦ (
          ground (arith, c, renamed),
          λ p ne ne'. ground (arith, c, laws.rename_else options.path (at 1) p s ne ne'),
        )
        | inl c ↦ elim (Option-cases (gzip text)) [
          | inl f ↦ (
            ground (arith, c, f, size, read, renamed),
            λ p ne ne'.
                ground (arith, c, f, size, read, laws.rename_else options.path (at 1) p s ne ne'),
          )
          | inr (z, f) ↦ (
            ground (arith, c, f, size, read, laws.overwrite_at (at 1) z s),
            λ p ne ne'. ground (arith, c, f, size, read, laws.overwrite_else (at 1) z p s ne'),
          )
        ]
      ]

  pub first_archives :
      (text : Bytes) (s : S)
      → content s options.path ≡ some text
      → Archived text s (rotate_step fs with_zlib gzip options 1 s)
  unfolding rotate_step
  first_archives text s e =
      let s1 = vacate 1 s in
      let here : content s1 options.path ≡ some text =
        vacate-else 1 s options.path (path_ne 1) ∙ e in
      let there : Archived text s1 (archive fs with_zlib gzip options (at 1) s1) =
        archive-Archived text s1 here in
      subst (Archived text s) (ground (arith, laws.exists_some options.path text s1 here))
        (there.0, λ p ne ne'. there.1 p ne ne' ∙ vacate-else 1 s p ne')
