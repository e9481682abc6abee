-- ===== src/Compression.antt =====
-- src/zlib_helper.cpp, over zlib as a record of its calls. The loop takes fuel: one more than the
-- bytes that zlib will write, as each round but the last writes one.
pub mod Inflate
mod Tests
use logspine.Prelude.{
  ℕ, zero, suc, ◌+◌, ◌-◌, ◌%◌, ◌^◌, ltb, if◌then◌else◌, Bool, true, false, Option, none, some, ◌++◌,
  Bytes, length, take, drop,
}

-- What `deflate` returns: `Z_OK`, `Z_STREAM_END`, or something else.
pub data Status : Type 0 where
  z_ok z_stream_end z_failed : Status

-- A call of `deflate` with `Z_FINISH`: what it returns, what it writes to `next_out`, and the stream
-- after it.
pub record Deflated (Z : Type 0) : Type 0 where
  pub status : Status
  pub written : Bytes
  pub after : Z

-- zlib on its `z_stream`: `deflateInit2` with the window bits, `none` where it does not return
-- `Z_OK`; the input set as `next_in` and `avail_in`; `deflate` with `avail_out`; `total_out`.
pub record Zlib (Z : Type 0) : Type 0 where
  pub deflate_init : ℕ → Option Z
  pub with_input : Bytes → Z → Z
  pub deflate : ℕ → Z → Deflated Z
  pub total_out : Z → ℕ

-- `outbuffer` after zlib has written to its front.
abbrev pub overwrite : Bytes → Bytes → Bytes
overwrite written outbuffer = written ++ drop (length written) outbuffer

-- The bytes of `outbuffer` that the output lacks.
abbrev pub append_new : ℕ → Bytes → Bytes → Bytes
append_new total_out outbuffer output =
    if ltb (length output) total_out
    then output ++ take (total_out - length output) outbuffer
    else output

-- The end of a round: the loop goes on as long as `deflate` returns `Z_OK`.
abbrev pub while_ok : Status → Option (Bool × Bytes) → Bytes → Option (Bool × Bytes)
while_ok z_ok rest output = rest
while_ok z_stream_end rest output = some (true, output)
while_ok z_failed rest output = some (false, output)

module _ {Z : Type 0} (z : Zlib Z) where
  -- The loop; `none` is a loop whose fuel has run out.
  unfoldable pub compress_loop : ℕ → Z → Bytes → Bytes → Option (Bool × Bytes)
  compress_loop zero zs outbuffer output = none
  compress_loop (suc fuel) zs outbuffer output =
      let call = z.deflate 32768 zs in
      let filled = overwrite call.written outbuffer in
      let grown = append_new (z.total_out call.after) filled output in
      let rest = compress_loop fuel call.after filled grown in while_ok call.status rest grown

  -- `avail_in` has 32 bits. The output buffer has any content at first.
  unfoldable pub compress_impl : ℕ → Bytes → Bytes → Bytes → ℕ → Option (Bool × Bytes)
  unfolding compress_loop
  compress_impl fuel outbuffer input output window_bits = elim (z.deflate_init window_bits) [
    | none ↦ some (false, output)
    | some zs ↦
        compress_loop fuel (z.with_input (take (length input % 2 ^ 32) input) zs) outbuffer output
  ]

  abbrev pub gzip_compress : ℕ → Bytes → Bytes → Bytes → Option (Bool × Bytes)
  gzip_compress fuel outbuffer input output = compress_impl fuel outbuffer input output (15 + 16)

  abbrev pub zlib_compress : ℕ → Bytes → Bytes → Bytes → Option (Bool × Bytes)
  zlib_compress fuel outbuffer input output = compress_impl fuel outbuffer input output 15
