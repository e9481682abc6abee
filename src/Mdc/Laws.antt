-- ===== src/Mdc/Laws.antt =====
-- The diagnostic context as a map from keys to values.
use logspine.Prelude.{
  ◌≡◌, refl, if◌then◌else◌, List, [], ◌∷◌, Bytes, bytes_eq, bytes_eq_iff, bytes_eq_refl, Option,
  none, some, arith,
}
use logspine.Event.{Value}
use logspine.Mdc.{Mdc, put, remove, clear, scoped_mdc}

-- The value that an event gets for a key.
unfoldable pub find : Bytes → Mdc → Option Value
find key [] = none
find key (f ∷ fields) = if bytes_eq f.key key then some f.value else find key fields

-- No key stands twice.
abbrev pub HasUniqueKeys : Mdc → Type 0
HasUniqueKeys [] = Unit {0}
HasUniqueKeys (f ∷ fields) = (find f.key fields ≡ none) × HasUniqueKeys fields

-- After `put` a key has its new value, and every other key the value that it had.
find-put :
    (j key : Bytes) (value : Value) (fields : Mdc)
    → find j (put key value fields) ≡ (if bytes_eq key j then some value else find j fields)
unfolding find put
find-put j key value [] = refl
find-put j key value (f ∷ fields) = ground (
  arith,
  find-put j key value fields,
  bytes_eq_iff f.key key,
  bytes_eq_iff f.key j,
  bytes_eq_iff key j,
)

-- After `remove` the key is gone, and every other key has the value that it had.
find-remove :
    (j key : Bytes) (fields : Mdc)
    → find j (remove key fields) ≡ (if bytes_eq key j then none else find j fields)
unfolding find remove
find-remove j key [] = ground arith
find-remove j key (f ∷ fields) = ground (
  arith,
  find-remove j key fields,
  bytes_eq_iff f.key key,
  bytes_eq_iff f.key j,
  bytes_eq_iff key j,
)

put-HasUniqueKeys :
    (key : Bytes) (value : Value) (fields : Mdc)
    → HasUniqueKeys fields
    → HasUniqueKeys (put key value fields)
unfolding put find
put-HasUniqueKeys key value [] h = (refl, tt)
put-HasUniqueKeys key value (f ∷ fields) h = ground (
  arith,
  put-HasUniqueKeys key value fields h.1,
  find-put f.key key value fields,
  bytes_eq_iff f.key key,
  bytes_eq_iff key f.key,
)

remove-HasUniqueKeys :
    (key : Bytes) (fields : Mdc) → HasUniqueKeys fields → HasUniqueKeys (remove key fields)
unfolding remove
remove-HasUniqueKeys key [] h = tt
remove-HasUniqueKeys key (f ∷ fields) h =
    ground (arith, remove-HasUniqueKeys key fields h.1, find-remove f.key key fields)

-- What removing an absent key leaves alone.
remove_of_absent :
    (key : Bytes) (fields : Mdc) → find key fields ≡ none → remove key fields ≡ fields
unfolding find remove
remove_of_absent key [] h = refl
remove_of_absent key (f ∷ fields) h =
    ground (arith, remove_of_absent key fields, bytes_eq_iff f.key key)

remove-put_of_absent :
    (key : Bytes) (value : Value) (fields : Mdc)
    → find key fields ≡ none
    → remove key (put key value fields) ≡ fields
unfolding find put remove
remove-put_of_absent key value [] h = ground (arith, bytes_eq_refl key)
remove-put_of_absent key value (f ∷ fields) h =
    ground (arith, remove-put_of_absent key value fields, bytes_eq_iff f.key key)

-- A scope over a key that is absent, whose block only reads, leaves the context as it was.
scoped_mdc-restores :
    (key : Bytes) (value : Value) (fields : Mdc)
    → find key fields ≡ none
    → scoped_mdc key value (λ m. m) fields ≡ fields
unfolding scoped_mdc
scoped_mdc-restores key value fields h = remove-put_of_absent key value fields h

-- After a scope its key is absent, whatever value it had before and whatever the block did. Every
-- other key has the value that the block left it.
find-scoped_mdc :
    (j key : Bytes) (value : Value) (block : Mdc → Mdc) (fields : Mdc)
    → find j (scoped_mdc key value block fields)
      ≡ (if bytes_eq key j then none else find j (block (put key value fields)))
unfolding scoped_mdc
find-scoped_mdc j key value block fields = find-remove j key (block (put key value fields))

-- The calls of one thread on its context, which starts empty.
pub data Call : Type 0 where
  puts : Bytes → Value → Call
  removes : Bytes → Call
  clears : Call

unfoldable pub run : List Call → Mdc → Mdc
run [] fields = fields
run (puts key value ∷ calls) fields = run calls (put key value fields)
run (removes key ∷ calls) fields = run calls (remove key fields)
run (clears ∷ calls) fields = run calls (clear fields)

run-HasUniqueKeys_from :
    (calls : List Call) (fields : Mdc) → HasUniqueKeys fields → HasUniqueKeys (run calls fields)
unfolding run clear
run-HasUniqueKeys_from [] fields h = h
run-HasUniqueKeys_from (puts key value ∷ calls) fields h =
    run-HasUniqueKeys_from calls (put key value fields) (put-HasUniqueKeys key value fields h)
run-HasUniqueKeys_from (removes key ∷ calls) fields h =
    run-HasUniqueKeys_from calls (remove key fields) (remove-HasUniqueKeys key fields h)
run-HasUniqueKeys_from (clears ∷ calls) fields h = run-HasUniqueKeys_from calls [] tt

-- After any sequence of calls no key stands twice in the context of a thread.
pub run-HasUniqueKeys : (calls : List Call) → HasUniqueKeys (run calls [])
run-HasUniqueKeys calls = run-HasUniqueKeys_from calls [] tt
