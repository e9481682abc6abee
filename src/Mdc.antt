-- ===== src/Mdc.antt =====
-- include/logspine/mdc.hpp and src/mdc.cpp: the diagnostic context of one thread, which is the value
-- of `thread_local_fields` there. Other threads have lists of their own.
pub mod Laws
mod Tests
use logspine.Prelude.{
  Bool, true, false, not, if◌then◌else◌, List, [], ◌∷◌, ◌++◌, Bytes, bytes_eq, Option, none, some,
}
use logspine.Event.{Field, Value}

abbrev pub Mdc : Type 0
Mdc = List Field

-- The first field with the key is overwritten; without one, a field is added at the end.
unfoldable pub put : Bytes → Value → Mdc → Mdc
put key value [] = record { key = key; value = value } ∷ []
put key value (f ∷ fields) =
    if bytes_eq f.key key
    then record { key = key; value = value } ∷ fields
    else f ∷ put key value fields

-- `std::remove_if` and `erase`: every field with the key goes.
unfoldable pub remove : Bytes → Mdc → Mdc
remove key [] = []
remove key (f ∷ fields) = if bytes_eq f.key key then remove key fields else f ∷ remove key fields

unfoldable pub clear : Mdc → Mdc
clear fields = []

unfoldable pub get_all : Mdc → List Field
get_all fields = fields

-- A block of code under a `scoped_mdc`: its constructor, what the block does to the context, and
-- its destructor.
unfoldable pub scoped_mdc : Bytes → Value → (Mdc → Mdc) → Mdc → Mdc
unfolding put remove
scoped_mdc key value block fields = remove key (block (put key value fields))
