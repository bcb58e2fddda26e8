-- ===== src/Cipher.antt =====
-- The packet ciphers of src/common/cipher.rs. A slice is the list of its bytes, and a call that
-- rewrites a slice in place returns the new bytes.
pub mod Stream
pub mod Laws
mod Tests
use fubuki_test.Base.{
  ℕ, zero, suc, ◌-◌, ◌/◌, ◌%◌, min, bit_xor, Bool, true, false, List, [], ◌∷◌, ◌++◌, map, leb, ◌==◌,
  if◌then◌else◌, length, take, drop,
}
use fubuki_test.Base.Bytes.{u8}

pub record CipherContext : Type 0 where
  pub offset : ℕ
  pub nonce : ℕ

-- A value of a type with the trait `Cipher`: its two methods, with the key inside.
pub record Cipher : Type 0 where
  pub encrypt : List ℕ → CipherContext → List ℕ
  pub decrypt : List ℕ → CipherContext → List ℕ

-- The 32 bytes of the key.
pub record XorCipher : Type 0 where
  pub basekey : List ℕ

pub key_mix : List ℕ → ℕ → List ℕ
key_mix base_key nonce = map (λ x. bit_xor x nonce) base_key

-- `l.iter_mut().zip(key).for_each(|(a, b)| *a ^= b)`: bytes beyond the key stay as they are.
pub xor_zip : List ℕ → List ℕ → List ℕ
xor_zip [] ks = []
xor_zip (x ∷ xs) [] = x ∷ xs
xor_zip (x ∷ xs) (k ∷ ks) = bit_xor x k ∷ xor_zip xs ks

-- The `while` over whole 32-byte chunks, then the rest. The fuel counts rounds.
pub chunk_loop : ℕ → List ℕ → List ℕ → List ℕ
chunk_loop zero key bytes = bytes
chunk_loop (suc fuel) key bytes = elim (leb 32 (length bytes)) [
  | true ↦ xor_zip (take 32 bytes) key ++ chunk_loop fuel key (drop 32 bytes)
  | false ↦ xor_zip bytes key
]

-- `nonce[0] ^ nonce[1]`, the two bytes of the nonce.
pub nonce_byte : ℕ → ℕ
nonce_byte nonce = bit_xor (u8 (nonce / 256)) (u8 nonce)

pub xor_encrypt : XorCipher → List ℕ → CipherContext → List ℕ
xor_encrypt c bytes context =
    let key = key_mix c.basekey (nonce_byte context.nonce) in
    let v = context.offset % 32 in
    let split = min (32 - v) (length bytes) in
    if v == 0
    then chunk_loop (suc (length bytes)) key bytes
    else (xor_zip (take split bytes) (drop v key)
        ++ chunk_loop (suc (length bytes)) key (drop split bytes))

pub xor_decrypt : XorCipher → List ℕ → CipherContext → List ℕ
xor_decrypt c bytes context = xor_encrypt c bytes context

-- `XorCipher::from(value)`. `hash` is `blake3::hash(_).as_bytes()`.
pub xor_from : (hash : List ℕ → List ℕ) → List ℕ → XorCipher
xor_from hash value = record { basekey = hash value }

abbrev pub no_op_cipher : Cipher
no_op_cipher = record { encrypt = λ bytes _. bytes; decrypt = λ bytes _. bytes }

abbrev pub xor_cipher : XorCipher → Cipher
xor_cipher c = record { encrypt = xor_encrypt c; decrypt = xor_decrypt c }

pub data CipherEnum : Type 0 where
  xor : XorCipher → CipherEnum
  no_op : CipherEnum

-- The methods of `CipherEnum` go to the cipher inside.
abbrev pub cipher_enum : CipherEnum → Cipher
cipher_enum (xor k) = xor_cipher k
cipher_enum no_op = no_op_cipher
