-- ===== src/Compression/Tests.antt =====
-- A zlib that stores its input as it is, and writes it in parts as there is room.
use logspine.Prelude.{
  ℕ, zero, suc, ◌+◌, ◌≤◌, ◌≡◌, refl, sym, leb, if◌then◌else◌, true, some, [], ◌∷◌, Bytes, codes,
  length, take, drop, arith, length-take, take-append-drop,
}
use logspine.Compression.{z_ok, z_stream_end, Zlib, zlib_compress}
use logspine.Compression.Inflate.{DeflateLaws, inflate-zlib_compress}

abbrev storing : Zlib (Bytes × ℕ)
storing = record {
  deflate_init = λ window_bits. some ([], 0);
  with_input = λ input zs. (input, 0);
  deflate = λ room zs. record {
    status = if leb (length zs.0) room then z_stream_end else z_ok;
    written = take room zs.0;
    after = (drop room zs.0, zs.1 + length (take room zs.0));
  };
  total_out = λ zs. zs.1;
}

drop_all : (n : ℕ) (text : Bytes) → length text ≤ n → drop n text ≡ []
drop_all zero [] h = refl
drop_all zero (x ∷ text) h = absurd (omega arith)
drop_all (suc n) [] h = refl
drop_all (suc n) (x ∷ text) h = drop_all n text (omega arith)

storing-DeflateLaws : DeflateLaws storing (λ zs. zs.0)
storing-DeflateLaws = record {
  new_total = λ w zs input e. refl;
  fits = λ room zs. omega (arith, length-take room zs.0);
  counted = λ room zs. refl;
  next = λ room zs. sym (take-append-drop room zs.0);
  whole = λ room zs e. drop_all room zs.0 (ground arith);
  valid = λ room zs positive e. ground arith;
  goes_on = λ room zs positive e. ground (arith, length-take room zs.0);
}

inflate-zlib_compress_example :
    (out : Bytes) × (zlib_compress storing 4 (codes "??") (codes "log") [] ≡ some (true, out))
    × (out ≡ codes "log")
inflate-zlib_compress_example =
    inflate-zlib_compress storing (λ zs. zs.0) storing-DeflateLaws (λ text. text) ([], 0) 4
      (codes "??") (codes "log") (λ text. refl) refl (omega arith) (omega arith)
