-- ===== src/Cipher/Laws.antt =====
-- What the users of the trait `Cipher` (src/common/cipher.rs) rely on, for both ciphers.
use fubuki_test.Base.{ℕ, suc, ◌+◌, ◌≡◌, refl, ap₂, ◌∙◌, List, [], ◌∷◌, ◌++◌, length, ap}
use fubuki_test.Base.Bits.{bit_xor_undo}
use fubuki_test.Cipher.{
  CipherContext, Cipher, XorCipher, xor_from, key_mix, nonce_byte, xor_encrypt, xor_decrypt,
  CipherEnum, xor, no_op, cipher_enum,
}
use fubuki_test.Cipher.Stream.{key_byte, xor_stream, xor_stream_append, xor_encrypt-eq-xor_stream}

abbrev pub at : ℕ → ℕ → CipherContext
at o n = record { offset = o; nonce = n }

-- Lengths stay, decryption undoes encryption, and a packet may be treated in pieces if each is
-- given the offset at which it stands.
pub record IsCipher (c : Cipher) : Type 0 where
  pub length-encrypt : (bytes : List ℕ) (o n : ℕ) → length (c.encrypt bytes (at o n)) ≡ length bytes
  pub length-decrypt : (bytes : List ℕ) (o n : ℕ) → length (c.decrypt bytes (at o n)) ≡ length bytes
  pub decrypt-encrypt :
      (bytes : List ℕ) (o n : ℕ) → c.decrypt (c.encrypt bytes (at o n)) (at o n) ≡ bytes
  pub encrypt_append :
      (xs ys : List ℕ) (o n : ℕ)
      → c.encrypt (xs ++ ys) (at o n) ≡ c.encrypt xs (at o n) ++ c.encrypt ys (at (o + length xs) n)
  pub decrypt_append :
      (xs ys : List ℕ) (o n : ℕ)
      → c.decrypt (xs ++ ys) (at o n) ≡ c.decrypt xs (at o n) ++ c.decrypt ys (at (o + length xs) n)

length-xor_stream : (key : List ℕ) (o : ℕ) (xs : List ℕ) → length (xor_stream key o xs) ≡ length xs
unfolding xor_stream
length-xor_stream key o [] = refl
length-xor_stream key o (x ∷ xs) = ap suc (length-xor_stream key (o + 1) xs)

xor_stream_twice :
    (key : List ℕ) (o : ℕ) (xs : List ℕ) → xor_stream key o (xor_stream key o xs) ≡ xs
unfolding xor_stream
xor_stream_twice key o [] = refl
xor_stream_twice key o (x ∷ xs) =
    ap₂ ◌∷◌ (bit_xor_undo x (key_byte key o)) (xor_stream_twice key (o + 1) xs)

-- The 32 bytes that the type `[u8; 32]` guarantees.
abbrev pub HasKey : CipherEnum → Type 0
HasKey (xor k) = length k.basekey ≡ 32
HasKey no_op = Unit

-- `XorCipher::from` takes a hash of 32 bytes.
pub xor_from-HasKey :
    (hash : List ℕ → List ℕ) (value : List ℕ)
    → length (hash value) ≡ 32
    → HasKey (xor (xor_from hash value))
unfolding xor_from
xor_from-HasKey hash value h = h

module _ (c : XorCipher) (e : length c.basekey ≡ 32) where
  abbrev stream : ℕ → ℕ → List ℕ → List ℕ
  stream n = xor_stream (key_mix c.basekey (nonce_byte n))

  as_stream : (bytes : List ℕ) (o n : ℕ) → xor_encrypt c bytes (at o n) ≡ stream n o bytes
  as_stream bytes o n = xor_encrypt-eq-xor_stream c bytes (at o n) e

  length-xor_encrypt :
      (bytes : List ℕ) (o n : ℕ) → length (xor_encrypt c bytes (at o n)) ≡ length bytes
  length-xor_encrypt bytes o n = rw (as_stream bytes o n) (length-xor_stream _ o bytes)

  xor_encrypt_twice :
      (bytes : List ℕ) (o n : ℕ) → xor_encrypt c (xor_encrypt c bytes (at o n)) (at o n) ≡ bytes
  xor_encrypt_twice bytes o n =
      as_stream _ o n ∙ ap (stream n o) (as_stream bytes o n) ∙ xor_stream_twice _ o bytes

  xor_encrypt_append :
      (xs ys : List ℕ) (o n : ℕ)
      → xor_encrypt c (xs ++ ys) (at o n)
        ≡ xor_encrypt c xs (at o n) ++ xor_encrypt c ys (at (o + length xs) n)
  xor_encrypt_append xs ys o n =
      rw (as_stream (xs ++ ys) o n, as_stream xs o n, as_stream ys (o + length xs) n)
        (xor_stream_append _ o xs ys)

-- Both ciphers keep lengths, undo themselves and may be used piece by piece.
pub cipher_enum-IsCipher : (c : CipherEnum) → HasKey c → IsCipher (cipher_enum c)
unfolding xor_decrypt
cipher_enum-IsCipher (xor k) h = record {
  length-encrypt = length-xor_encrypt k h;
  length-decrypt = length-xor_encrypt k h;
  decrypt-encrypt = xor_encrypt_twice k h;
  encrypt_append = xor_encrypt_append k h;
  decrypt_append = xor_encrypt_append k h;
}
cipher_enum-IsCipher no_op h = record {
  length-encrypt = λ bytes o n. refl;
  length-decrypt = λ bytes o n. refl;
  decrypt-encrypt = λ bytes o n. refl;
  encrypt_append = λ xs ys o n. refl;
  decrypt_append = λ xs ys o n. refl;
}
