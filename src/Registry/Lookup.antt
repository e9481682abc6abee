-- ===== src/Registry/Lookup.antt =====
-- Which logger a name gets, and at which level it logs.
use logspine.Prelude.{
  ℕ, zero, suc, ◌≡◌, ◌≢◌, refl, sym, ◌∙◌, Bool, true, false, Option, none, some, List, [], ◌∷◌,
  ◌++◌, Bytes, bytes_eq, bytes_eq_iff, bytes_eq_refl, length, get_elem?, All, arith, inl, inr,
  Option-cases, Bool-cases, bytes_eq_sound, ◌==◌, ◌||◌,
}
use logspine.Level.{Level}
use logspine.Logger
use logspine.Logger.{Logger}
use logspine.Registry.{
  Registry, new_registry, find, create, get, set_level_at, set_levels, set_level,
}

-- The logger of a name, without making one.
abbrev pub logger_at : Registry → ℕ → Option Logger
logger_at r i = get_elem? r.heap i

-- An entry of the map points at a logger of its name.
pub record Owns (heap : List Logger) (entry : Bytes × ℕ) : Type 0 where
  pub logger : Logger
  pub found : get_elem? heap entry.1 ≡ some logger
  pub named : logger.name ≡ entry.0

pub record IsValid (r : Registry) : Type 0 where
  pub owns : All (Owns r.heap) r.loggers

-- The registry that the constructor makes is valid.
pub new_registry-IsValid : (v : Level) → IsValid (new_registry v)
unfolding new_registry
new_registry-IsValid v = record { owns = tt }

get_elem?-append_left :
    {A : Type 0} (xs ys : List A) (i : ℕ) (a : A)
    → get_elem? xs i ≡ some a
    → get_elem? (xs ++ ys) i ≡ some a
get_elem?-append_left [] ys i a h = cc
get_elem?-append_left (x ∷ xs) ys zero a h = h
get_elem?-append_left (x ∷ xs) ys (suc i) a h = get_elem?-append_left xs ys i a h

get_elem?-append_length :
    {A : Type 0} (xs : List A) (a : A) → get_elem? (xs ++ (a ∷ [])) (length xs) ≡ some a
get_elem?-append_length [] a = refl
get_elem?-append_length (x ∷ xs) a = get_elem?-append_length xs a

All-Owns-append :
    (heap : List Logger) (l : Logger) (loggers : List (Bytes × ℕ))
    → All (Owns heap) loggers
    → All (Owns (heap ++ (l ∷ []))) loggers
All-Owns-append heap l [] h = tt
All-Owns-append heap l ((name, i) ∷ loggers) h = (
  record {
    logger = h.0.logger;
    found = get_elem?-append_left heap (l ∷ []) i h.0.logger h.0.found;
    named = h.0.named;
  },
  All-Owns-append heap l loggers h.1,
)

create-IsValid : (name : Bytes) (r : Registry) → IsValid r → IsValid (create name r).1
unfolding create
create-IsValid name r v = record {
  owns = (
    record {
      logger = record { name = name; minimum_level = r.minimum_level };
      found =
          get_elem?-append_length r.heap (record { name = name; minimum_level = r.minimum_level });
      named = refl;
    },
    All-Owns-append r.heap _ r.loggers v.owns,
  );
}

-- A lookup keeps the registry valid: every name of the map has a logger of that name.
pub get-IsValid : (name : Bytes) (r : Registry) → IsValid r → IsValid (get name r).1
unfolding get
get-IsValid name r v = elim (Option-cases (find name r.loggers)) [
  | inl e ↦ rw (e, get) (create-IsValid name r v)
  | inr (i, e) ↦ rw (e, get) v
]

get_of_find :
    (name : Bytes) (r : Registry) (i : ℕ) → find name r.loggers ≡ some i → get name r ≡ (i, r)
unfolding get
get_of_find name r i e = rw (e, get)

-- A second lookup of a name gives the same logger and changes nothing, and the first leaves the
-- entry of another name as it was.
get_stable :
    (name other : Bytes) (r : Registry)
    → other ≢ name
    → let (i, r') = get name r in
      (get name r' ≡ (i, r')) × (find other r'.loggers ≡ find other r.loggers)
unfolding get create find
get_stable name other r ne = elim (Option-cases (find name r.loggers)) [
  | inl e ↦
      rw (e, get)
        (
          ground (arith, bytes_eq_refl name),
          ground (arith, bytes_eq_iff name other, λ (h : name ≡ other). ne (sym h)),
        )
  | inr (i, e) ↦ rw (get_of_find name r i e) (get_of_find name r i e, refl)
]

find-Owns :
    (name : Bytes) (heap : List Logger) (loggers : List (Bytes × ℕ)) (i : ℕ)
    → All (Owns heap) loggers
    → find name loggers ≡ some i
    → (l : Logger) × (get_elem? heap i ≡ some l) × (l.name ≡ name)
unfolding find
find-Owns name heap [] i h e = cc
find-Owns name heap ((key, j) ∷ loggers) i h e = elim (Bool-cases (bytes_eq key name)) [
  | inl t ↦ (h.0.logger, ground (arith, h.0.found), h.0.named ∙ bytes_eq_sound key name t)
  | inr t ↦ find-Owns name heap loggers i h.1 (ground arith)
]

-- The logger that `get` returns from a valid registry bears the name that was asked for.
get_named :
    (name : Bytes) (r : Registry)
    → IsValid r
    → (l : Logger) × (logger_at (get name r).1 (get name r).0 ≡ some l) × (l.name ≡ name)
unfolding get create find
get_named name r v = elim (Option-cases (find name r.loggers)) [
  | inl e ↦
      rw (e, get)
        (
          record { name = name; minimum_level = r.minimum_level },
          get_elem?-append_length r.heap _,
          refl,
        )
  | inr (i, e) ↦ rw (e, get) (find-Owns name r.heap r.loggers i v.owns e)
]

-- Whether an entry of the map points at a logger.
points : ℕ → List (Bytes × ℕ) → Bool
points i [] = false
points i ((name, j) ∷ loggers) = j == i || points i loggers

points_of_find :
    (name : Bytes) (loggers : List (Bytes × ℕ)) (i : ℕ)
    → find name loggers ≡ some i
    → points i loggers ≡ true
unfolding find points
points_of_find name [] i e = cc
points_of_find name ((key, j) ∷ loggers) i e = ground (arith, points_of_find name loggers i)

abbrev raised : Level → Bool → Option Logger → Option Logger
raised value true (some l) = some (Logger.set_level value l)
raised value true none = none
raised value false o = o

get_elem?-set_level_at :
    (value : Level) (j i : ℕ) (heap : List Logger)
    → get_elem? (set_level_at value j heap) i ≡ raised value (j == i) (get_elem? heap i)
get_elem?-set_level_at value j i [] = ground arith
get_elem?-set_level_at value zero zero (l ∷ heap) = refl
get_elem?-set_level_at value zero (suc i) (l ∷ heap) = ground arith
get_elem?-set_level_at value (suc j) zero (l ∷ heap) = ground arith
get_elem?-set_level_at value (suc j) (suc i) (l ∷ heap) =
    ground (arith, get_elem?-set_level_at value j i heap)

get_elem?-set_levels :
    (value : Level) (loggers : List (Bytes × ℕ)) (i : ℕ) (heap : List Logger)
    → get_elem? (set_levels value loggers heap) i
      ≡ raised value (points i loggers) (get_elem? heap i)
unfolding set_levels points
get_elem?-set_levels value [] i heap = ground arith
get_elem?-set_levels value ((name, j) ∷ loggers) i heap = ground (
  arith,
  get_elem?-set_levels value loggers i (set_level_at value j heap),
  get_elem?-set_level_at value j i heap,
)

-- After `set_level` on a valid registry the lookup of any name, old or new, gives a logger of that
-- name at that level.
pub get-set_level :
    (value : Level) (name : Bytes) (r : Registry)
    → IsValid r
    → let r' = get name (set_level value r) in
      (l : Logger) × (logger_at r'.1 r'.0 ≡ some l) × (l.minimum_level ≡ value) × (l.name ≡ name)
unfolding get create set_level
get-set_level value name r v = elim (Option-cases (find name r.loggers)) [
  | inl e ↦
      rw (e, get)
        (
          record { name = name; minimum_level = value },
          get_elem?-append_length (set_levels value r.loggers r.heap) _,
          refl,
          refl,
        )
  | inr (i, e) ↦
      let (l, found, named) = find-Owns name r.heap r.loggers i v.owns e in
      rw (e, get)
        (
          Logger.set_level value l,
          rw (
            get_elem?-set_levels value r.loggers i r.heap,
            points_of_find name r.loggers i e,
            found,
          ),
          refl,
          named,
        )
]
