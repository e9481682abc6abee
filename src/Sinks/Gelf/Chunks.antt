-- ===== src/Sinks/Gelf/Chunks.antt =====
-- What the receiver of the datagrams of a payload puts together.
use native.Mathlib.Nat.{div-add-mod, mod-lt, zero-mul, le_trans}
use native.Mathlib.Decide.{dec_le}
use logspine.Prelude.{
  map, ◌↔◌, ℕ, zero, suc, ◌+◌, ◌-◌, ◌*◌, ◌/◌, ◌%◌, ◌^◌, ◌≤◌, ◌<◌, ◌≡◌, refl, sym, ap, ◌∙◌, ◌==◌,
  false, none, some, List, [], ◌∷◌, ◌++◌, Bytes, arith, All, length, length-take, take, drop, min,
  drop-drop, take_all, length-drop, take-add, take-min, ap₂, subst, lt→ltb,
}
use logspine.Sinks.Gelf.{id_bytes, make_chunk, make_chunks, total_chunks, split_payload}

-- The bodies of the chunks behind their headers of 12 bytes, in the order of their numbers.
unfoldable pub joined_bodies : List Bytes → Bytes
joined_bodies [] = []
joined_bodies (c ∷ cs) = drop 12 c ++ joined_bodies cs

-- The GELF header of the chunk of a number: two magic bytes, the id, the number and the count.
abbrev pub header : ℕ → ℕ → ℕ → Bytes
header message_id n i = 0x1E ∷ 0x0F ∷ (id_bytes 8 message_id ++ (i ∷ n ∷ []))

-- Those of consecutive chunks from a number on.
unfoldable pub headers : ℕ → ℕ → ℕ → ℕ → List Bytes
headers message_id n zero i = []
headers message_id n (suc rounds) i = header message_id n i ∷ headers message_id n rounds (i + 1)

module _ (message_id m n : ℕ) (payload : Bytes) where
  body : (i : ℕ) → drop 12 (make_chunk message_id m n i payload) ≡ take m (drop (i * m) payload)
  unfolding make_chunk
  body i =
      ap (λ k. take (min m k) (drop (i * m) payload)) (sym (length-drop (i * m) payload))
      ∙ take-min m (drop (i * m) payload)

  joined_bodies-make_chunks :
      (rounds i : ℕ)
      → joined_bodies (make_chunks rounds i message_id m n payload)
        ≡ take (rounds * m) (drop (i * m) payload)
  unfolding joined_bodies make_chunks
  joined_bodies-make_chunks zero i = rw zero-mul
  joined_bodies-make_chunks (suc rounds) i =
      ap₂ ◌++◌ (body i) (
        joined_bodies-make_chunks rounds (i + 1)
        ∙ ap (take (rounds * m))
            (ap (λ k. drop k payload) next ∙ sym (drop-drop m (i * m) payload)))
      ∙ sym (take-add m (rounds * m) (drop (i * m) payload))
      ∙ ap (λ k. take k (drop (i * m) payload)) more
    where
      next : (i + 1) * m ≡ i * m + m
      next = omega arith

      more : m + rounds * m ≡ suc rounds * m
      more = omega arith

  -- Each datagram fits the chunk size.
  make_chunks-fit :
      (rounds i : ℕ) → All (λ c. length c ≤ m + 12) (make_chunks rounds i message_id m n payload)
  unfolding make_chunks make_chunk
  make_chunks-fit zero i = tt
  make_chunks-fit (suc rounds) i = (
    omega (arith, length-take (min m (length payload - i * m)) (drop (i * m) payload)),
    make_chunks-fit rounds (i + 1),
  )

  length-make_chunks :
      (rounds i : ℕ) → length (make_chunks rounds i message_id m n payload) ≡ rounds
  unfolding make_chunks
  length-make_chunks zero i = refl
  length-make_chunks (suc rounds) i = ap suc (length-make_chunks rounds (i + 1))

  make_chunks-headers :
      (rounds i : ℕ)
      → map (take 12) (make_chunks rounds i message_id m n payload) ≡ headers message_id n rounds i
  unfolding make_chunks make_chunk headers
  make_chunks-headers zero i = refl
  make_chunks-headers (suc rounds) i =
      ap (λ hs. header message_id n i ∷ hs) (make_chunks-headers rounds (i + 1))

-- Without a wrap the chunks, if they are at most 128, have room for the payload.
total_chunks_enough : (size m : ℕ) → 0 < m → size + m < 2 ^ 64 → size ≤ total_chunks size m * m
total_chunks_enough size m pos small = rw unwrapped covered
  where
    unwrapped : (size + m + 2 ^ 64 - 1) % 2 ^ 64 ≡ size + m - 1
    unwrapped = omega arith

    covered : size ≤ (size + m - 1) / m * m
    covered = omega (arith, div-add-mod (size + m - 1) m, mod-lt (size + m - 1) pos)

take_enough :
    (m total : ℕ) (payload : Bytes)
    → length payload ≤ total * m
    → take (min total 128 * m) payload ≡ take (128 * m) payload
take_enough m total payload enough = elim (dec_le total 128) [
  | yes few ↦
      ap (λ k. take (k * m) payload) (min_left total few)
      ∙ take_all (total * m) payload enough
      ∙ sym (take_all (128 * m) payload (le_trans enough (scaled total few)))
  | no many ↦ ap (λ k. take (k * m) payload) (min_right total many)
]
  where
    min_left : (t : ℕ) → t ≤ 128 → min t 128 ≡ t
    min_left t h = omega arith

    min_right : (t : ℕ) → ¬ (t ≤ 128) → min t 128 ≡ 128
    min_right t h = omega arith

    scaled : (t : ℕ) → t ≤ 128 → t * m ≤ 128 * m
    scaled t h = grind arith

split_payload-eq :
    (max_chunk_size message_id m : ℕ) (payload : Bytes)
    → max_chunk_size ≡ m + 12
    → 0 < m
    → max_chunk_size < length payload
    → length payload < 2 ^ 62
    → let n = min (total_chunks (length payload) m) 128 in
      split_payload max_chunk_size message_id payload
      ≡ some (make_chunks n 0 message_id m n payload)
unfolding split_payload
split_payload-eq max_chunk_size message_id m payload e pos long small =
    rw (lt→ltb max_chunk_size (length payload) long, unwrapped, not_zero m pos)
  where
    unwrapped : (max_chunk_size + 2 ^ 64 - 12) % 2 ^ 64 ≡ m
    unwrapped = omega arith

    not_zero : (k : ℕ) → 0 < k → (k == 0) ≡ false
    not_zero k h = ground arith

-- A payload longer than the chunk size (which is above 12, and neither is absurdly large) goes out as
-- at most 128 datagrams, each no longer than the chunk size. Their headers have the message's id, the
-- numbers from 0 on, and their count. Their bodies in order are the first `128 * (max_chunk_size - 12)` bytes of the payload, so
-- the whole payload unless it is longer than that.
pub split_payload_joins :
    (max_chunk_size message_id : ℕ) (payload : Bytes)
    → 12 < max_chunk_size
    → max_chunk_size < length payload
    → length payload < 2 ^ 62
    → (cs : List Bytes) × (split_payload max_chunk_size message_id payload ≡ some cs)
      × (joined_bodies cs ≡ take (128 * (max_chunk_size - 12)) payload)
      × (length cs ≤ 128)
      × All (λ c. length c ≤ max_chunk_size) cs
      × (map (take 12) cs ≡ headers message_id (length cs) (length cs) 0)
split_payload_joins max_chunk_size message_id payload low long small =
    let m = max_chunk_size - 12 in
    let n = min (total_chunks (length payload) m) 128 in
    (
      make_chunks n 0 message_id m n payload,
      split_payload-eq max_chunk_size message_id m payload (omega arith) (omega arith) long small,
      joined_bodies-make_chunks message_id m n payload n 0
          ∙ ap (λ k. take (n * m) (drop k payload)) (zero-mul m)
          ∙ take_enough m (total_chunks (length payload) m) payload
              (total_chunks_enough (length payload) m (omega arith) (omega arith)),
      rw (length-make_chunks message_id m n payload n 0) (omega arith),
      subst (λ k. All (λ c. length c ≤ k) (make_chunks n 0 message_id m n payload)) (omega arith)
          (make_chunks-fit message_id m n payload n 0),
      make_chunks-headers message_id m n payload n 0
          ∙ ap (λ k. headers message_id k k 0)
              (sym (length-make_chunks message_id m n payload n 0)),
    )

-- Splitting fails, by a division by zero, exactly for a chunk size of 12 and a longer payload.
pub split_payload_fails_iff :
    (max_chunk_size message_id : ℕ) (payload : Bytes)
    → max_chunk_size < 2 ^ 64
    → (split_payload max_chunk_size message_id payload ≡ none)
      ↔ ((max_chunk_size ≡ 12) × (12 < length payload))
unfolding split_payload
split_payload_fails_iff max_chunk_size message_id payload small =
    (λ h. ground arith, λ h. ground arith)
