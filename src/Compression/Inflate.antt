-- ===== src/Compression/Inflate.antt =====
-- The compressed text is all that zlib writes.
use logspine.Prelude.{
  ℕ, zero, suc, ◌+◌, ◌-◌, ◌%◌, ◌^◌, ◌<◌, ◌≤◌, ◌≡◌, ◌≢◌, refl, sym, ap, subst, ◌∙◌, Bool, true,
  Option, some, [], ◌∷◌, ◌++◌, append-nil, append_assoc, Bytes, length, take, drop, take_all, arith,
  length-append,
}
use logspine.Compression.{
  Status, z_ok, z_stream_end, z_failed, Zlib, overwrite, append_new, while_ok, compress_loop,
  compress_impl, zlib_compress,
}

-- What zlib documents of `deflate` with `Z_FINISH`, where `stream` is what a stream has still to
-- write: a call writes the next part of it, no more than there is room for, and counts it in
-- `total_out`; it is all written at `Z_STREAM_END`; `Z_OK` means that something was written; and
-- where there is room, nothing else is returned.
pub record DeflateLaws {Z : Type 0} (z : Zlib Z) (stream : Z → Bytes) : Type 0 where
  pub new_total :
      (w : ℕ) (zs : Z) (input : Bytes)
      → z.deflate_init w ≡ some zs
      → z.total_out (z.with_input input zs) ≡ 0
  pub fits : (room : ℕ) (zs : Z) → length (z.deflate room zs).written ≤ room
  pub counted :
      (room : ℕ) (zs : Z)
      → z.total_out (z.deflate room zs).after ≡ z.total_out zs + length (z.deflate room zs).written
  pub next :
      (room : ℕ) (zs : Z)
      → stream zs ≡ (z.deflate room zs).written ++ stream (z.deflate room zs).after
  pub whole :
      (room : ℕ) (zs : Z)
      → (z.deflate room zs).status ≡ z_stream_end
      → stream (z.deflate room zs).after ≡ []
  pub goes_on :
      (room : ℕ) (zs : Z)
      → 0 < room
      → (z.deflate room zs).status ≡ z_ok
      → 0 < length (z.deflate room zs).written
  pub valid : (room : ℕ) (zs : Z) → 0 < room → (z.deflate room zs).status ≢ z_failed

take-append : (xs ys : Bytes) → take (length xs) (xs ++ ys) ≡ xs
take-append [] ys = refl
take-append (x ∷ xs) ys = ap (λ (t : Bytes). x ∷ t) (take-append xs ys)

-- What a round appends is what the call has written.
append_new-overwrite :
    (total : ℕ) (written outbuffer output : Bytes)
    → total ≡ length output + length written
    → append_new total (overwrite written outbuffer) output ≡ output ++ written
append_new-overwrite total [] outbuffer output e = ground (arith, append-nil output)
append_new-overwrite total (x ∷ xs) outbuffer output e =
    more
    ∙ ap (λ n. output ++ take n (overwrite (x ∷ xs) outbuffer)) (the_rest)
    ∙ ap (λ (t : Bytes). output ++ t) (take-append (x ∷ xs) (drop (length (x ∷ xs)) outbuffer))
  where
    more :
        append_new total (overwrite (x ∷ xs) outbuffer) output
        ≡ output ++ take (total - length output) (overwrite (x ∷ xs) outbuffer)
    more = ground arith

    the_rest : total - length output ≡ length (x ∷ xs)
    the_rest = omega arith

while_ok-stream :
    (text : Bytes) (status : Status) (rest : Option (Bool × Bytes)) (output : Bytes)
    → (status ≡ z_ok → rest ≡ some (true, text))
    → (status ≡ z_stream_end → output ≡ text)
    → status ≢ z_failed
    → while_ok status rest output ≡ some (true, text)
while_ok-stream text z_ok rest output again done valid = again refl
while_ok-stream text z_stream_end rest output again done valid =
    ap (λ (t : Bytes). some (true, t)) (done refl)
while_ok-stream text z_failed rest output again done valid = absurd (valid refl)

module _ {Z : Type 0} (z : Zlib Z) (stream : Z → Bytes) (laws : DeflateLaws z stream) where
  compress_loop-stream :
      (fuel : ℕ) (zs : Z) (outbuffer output : Bytes)
      → length (stream zs) < fuel
      → z.total_out zs ≡ length output
      → compress_loop z fuel zs outbuffer output ≡ some (true, output ++ stream zs)
  unfolding compress_loop
  compress_loop-stream zero zs outbuffer output enough counted = absurd (omega arith)
  compress_loop-stream (suc fuel) zs outbuffer output enough counted =
      let call = z.deflate 32768 zs in
      let filled = overwrite call.written outbuffer in
      let grown = append_new (z.total_out call.after) filled output in
      let appended =
        append_new-overwrite (z.total_out call.after) call.written outbuffer output
          (laws.counted 32768 zs ∙ ap (λ n. n + length call.written) counted) in
      let joined = append_assoc output call.written (stream call.after) in
      while_ok-stream (output ++ stream zs) call.status
        (compress_loop z fuel call.after filled grown) grown
        (λ ok.
          subst (λ t. compress_loop z fuel call.after filled grown ≡ some (true, t))
            (ap (λ (t : Bytes). t ++ stream call.after) appended
              ∙ joined
              ∙ ap (λ (t : Bytes). output ++ t) (sym (laws.next 32768 zs)))
            (compress_loop-stream fuel call.after filled grown
              (omega (
                arith,
                ap length (laws.next 32768 zs),
                length-append call.written (stream call.after),
                laws.goes_on 32768 zs (omega arith) ok,
              ))
              (omega (
                arith,
                laws.counted 32768 zs,
                ap length appended,
                length-append output call.written,
              ))))
        (λ end.
          appended
          ∙ ap (λ (t : Bytes). output ++ t)
              (sym (append-nil call.written)
                ∙ ap (λ (t : Bytes). call.written ++ t) (sym (laws.whole 32768 zs end))
                ∙ sym (laws.next 32768 zs)))
        (laws.valid 32768 zs (omega arith))

  compress_impl_starts :
      (fuel : ℕ) (outbuffer input output : Bytes) (window_bits : ℕ) (zs : Z)
      → z.deflate_init window_bits ≡ some zs
      → compress_impl z fuel outbuffer input output window_bits
        ≡ compress_loop z fuel
            (z.with_input (take (length input % 2 ^ 32) input) zs)
            outbuffer
            output
  unfolding compress_impl
  compress_impl_starts fuel outbuffer input output window_bits zs new = rw (compress_impl, new)

  -- Over a zlib that does what it documents, and initialises the stream, the compression of less than
  -- 2 ^ 32 bytes into an empty output string ends with success, given fuel for one round more than the bytes that zlib has to
  -- write, and whatever the buffer has in it at first; and a reader that gets back the input of a
  -- stream from what the stream writes gets back the input from the output.
  pub inflate-zlib_compress :
      (inflate : Bytes → Bytes) (zs : Z) (fuel : ℕ) (outbuffer input : Bytes)
      → ((text : Bytes) → inflate (stream (z.with_input text zs)) ≡ text)
      → z.deflate_init 15 ≡ some zs
      → length input < 2 ^ 32
      → length (stream (z.with_input input zs)) < fuel
      → (out : Bytes) × (zlib_compress z fuel outbuffer input [] ≡ some (true, out))
        × (inflate out ≡ input)
  inflate-zlib_compress inflate zs fuel outbuffer input reads new short enough =
      let all = take_all (length input % 2 ^ 32) input (omega arith) in
      let loop =
        subst
          (λ text.
            compress_impl z fuel outbuffer input [] 15
            ≡ compress_loop z fuel (z.with_input text zs) outbuffer [])
          all (compress_impl_starts fuel outbuffer input [] 15 zs new) in
      let result =
        compress_loop-stream fuel (z.with_input input zs) outbuffer [] enough
          (laws.new_total 15 zs input new) in
      (stream (z.with_input input zs), loop ∙ result, reads input)
