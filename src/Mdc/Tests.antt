-- ===== src/Mdc/Tests.antt =====
-- Runs of the diagnostic context.
use logspine.Prelude.{◌≡◌, refl, [], ◌∷◌, codes, bytes_eq}
use logspine.Prelude.Int.{pos}
use logspine.Event.{int64, text, kv}
use logspine.Mdc.{Mdc, put}
use logspine.Mdc.Laws.{HasUniqueKeys, puts, removes, clears, run, run-HasUniqueKeys}

abbrev context : Mdc
context = kv (codes "user") (text (codes "alice")) ∷ kv (codes "request") (int64 (pos 7)) ∷ []

overwrites :
    put (codes "user") (text (codes "bob")) context
    ≡ kv (codes "user") (text (codes "bob")) ∷ kv (codes "request") (int64 (pos 7)) ∷ []
unfolding put bytes_eq
overwrites = refl

run-HasUniqueKeys_example : HasUniqueKeys (
    run
      (puts (codes "user") (int64 (pos 1))
        ∷ clears
        ∷ puts (codes "user") (int64 (pos 2))
        ∷ puts (codes "user") (int64 (pos 3))
        ∷ removes (codes "span")
        ∷ [])
      [])
run-HasUniqueKeys_example = run-HasUniqueKeys (
    puts (codes "user") (int64 (pos 1))
    ∷ clears
    ∷ puts (codes "user") (int64 (pos 2))
    ∷ puts (codes "user") (int64 (pos 3))
    ∷ removes (codes "span")
    ∷ [])
