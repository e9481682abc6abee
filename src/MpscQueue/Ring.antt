-- ===== src/MpscQueue/Ring.antt =====
-- Indices that go round a ring, and a list with one more item.
use native.Mathlib.Nat.{div-add-mod}
use native.Mathlib.Decide.{dec_lt}
use logspine.Prelude.{
  ℕ, zero, suc, ◌+◌, ◌*◌, ◌/◌, ◌%◌, ◌<◌, ◌≤◌, ◌≡◌, ◌≢◌, refl, arith, ◌==◌, if◌then◌else◌, some,
  List, [], ◌∷◌, ◌++◌, length, get_elem?,
}

-- Two positions less than a round apart have different indices.
pub mod_ne : (size a b : ℕ) → a < b → b < a + size → a % size ≢ b % size
mod_ne size a b lt near e = elim (dec_lt (a / size) (b / size)) [
  | yes up ↦
      absurd
        (omega (arith, div-add-mod a size, div-add-mod b size, round size (a / size) (b / size) up))
  | no same ↦ absurd (
      omega (
        arith,
        div-add-mod a size,
        div-add-mod b size,
        level size (a / size) (b / size) (omega arith),
      ))
]
  where
    round : (size p r : ℕ) → p < r → size * p + size ≤ size * r
    round size p r h = grind arith

    level : (size p r : ℕ) → r ≤ p → size * r ≤ size * p
    level size p r h = grind arith

pub get_elem?-snoc :
    {A : Type 0} (xs : List A) (x : A) (i : ℕ)
    → get_elem? (xs ++ (x ∷ [])) i ≡ (if i == length xs then some x else get_elem? xs i)
get_elem?-snoc [] x zero = refl
get_elem?-snoc [] x (suc i) = ground arith
get_elem?-snoc (y ∷ xs) x zero = ground arith
get_elem?-snoc (y ∷ xs) x (suc i) = ground (arith, get_elem?-snoc xs x i)

pub lt-length_of_get_elem? :
    {A : Type 0} (xs : List A) (i : ℕ) (x : A) → get_elem? xs i ≡ some x → i < length xs
lt-length_of_get_elem? [] i x e = cc
lt-length_of_get_elem? (y ∷ xs) zero x e = omega arith
lt-length_of_get_elem? (y ∷ xs) (suc i) x e = omega (arith, lt-length_of_get_elem? xs i x e)

module _ {A : Type 0} (f : ℕ → A) (i : ℕ) (a : A) where
  abbrev pub write_at : ℕ → A
  write_at j = if i == j then a else f j

  pub write_at_self : (j : ℕ) → i ≡ j → write_at j ≡ a
  write_at_self j e = ground arith

  pub write_at_ne : (j : ℕ) → i ≢ j → write_at j ≡ f j
  write_at_ne j ne = ground arith
