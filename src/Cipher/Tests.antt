-- ===== src/Cipher/Tests.antt =====
-- Runs of src/common/cipher.rs at concrete inputs, the source's own test among them.
use fubuki_test.Base.{ℕ, ◌≡◌, refl, List, [], ◌∷◌, ◌++◌, take, drop, replicate}
use fubuki_test.Cipher.{
  XorCipher, key_mix, xor_zip, chunk_loop, nonce_byte, xor_encrypt, xor_decrypt, xor, cipher_enum,
}
use fubuki_test.Cipher.Stream.{xor_stream, xor_encrypt-eq-xor_stream}
use fubuki_test.Cipher.Laws.{at, IsCipher, cipher_enum-IsCipher}

abbrev sample_key : XorCipher
sample_key = record { basekey = 7 ∷ 200 ∷ 31 ∷ replicate 29 0xa5 }

-- 40 bytes, more than one chunk
abbrev long_text : List ℕ
long_text = 1 ∷ 2 ∷ 3 ∷ replicate 37 0x61

-- `fn test` of src/common/cipher.rs, with a key in place of the hash of "abc".
in_two_pieces :
    let text : List ℕ = 0x61 ∷ 0x62 ∷ 0x63 ∷ 0x64 ∷ 0x65 ∷ 0x66 ∷ [] in
    let sent = xor_encrypt sample_key text (at 0 0) in
    xor_decrypt sample_key (take 2 sent) (at 0 0) ++ xor_decrypt sample_key (drop 2 sent) (at 2 0)
    ≡ text
unfolding xor_encrypt xor_decrypt key_mix nonce_byte xor_zip chunk_loop
in_two_pieces = refl

xor_encrypt-eq-xor_stream_example :
    xor_encrypt sample_key long_text (at 5 0x1234)
    ≡ xor_stream (key_mix sample_key.basekey (nonce_byte 0x1234)) 5 long_text
xor_encrypt-eq-xor_stream_example =
    xor_encrypt-eq-xor_stream sample_key long_text (at 5 0x1234) refl

cipher_enum-IsCipher_example : IsCipher (cipher_enum (xor sample_key))
cipher_enum-IsCipher_example = cipher_enum-IsCipher (xor sample_key) refl
