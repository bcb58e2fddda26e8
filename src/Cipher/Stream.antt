-- ===== src/Cipher/Stream.antt =====
-- What src/common/cipher.rs computes, byte by byte: a stream cipher whose key repeats every 32
-- bytes, at the position that the context gives.
use fubuki_test.Base.{
  ℕ, zero, suc, ◌+◌, ◌-◌, ◌%◌, ◌≤◌, ◌<◌, min, bit_xor, ◌≡◌, refl, ap, ◌∙◌, inl, inr, List, [], ◌∷◌,
  ◌++◌, arith, leb, ◌==◌, if◌then◌else◌, length, get_elem?, take, drop, Bool-cases, length-take,
  length-drop, take-append-drop, sym, ◌⊎◌, ==_iff, leb→le,
}
use mathlib.Core.Option
use native.Mathlib.Numerals.{add-one}
use fubuki_test.Cipher.{
  CipherContext, XorCipher, key_mix, xor_zip, chunk_loop, nonce_byte, xor_encrypt,
}

abbrev pub key_byte : List ℕ → ℕ → ℕ
key_byte key i = Option.get_or (get_elem? key (i % 32)) 0

length-key_mix : (key : List ℕ) (n : ℕ) → length (key_mix key n) ≡ length key
unfolding key_mix
length-key_mix [] n = refl
length-key_mix (k ∷ ks) n = ap suc (length-key_mix ks n)

-- Byte `i` is combined with key byte `(o + i) % 32`.
unfoldable pub xor_stream : List ℕ → ℕ → List ℕ → List ℕ
xor_stream key o [] = []
xor_stream key o (x ∷ xs) = bit_xor x (key_byte key o) ∷ xor_stream key (o + 1) xs

pub xor_stream_append :
    (key : List ℕ) (o : ℕ) (xs ys : List ℕ)
    → xor_stream key o (xs ++ ys) ≡ xor_stream key o xs ++ xor_stream key (o + length xs) ys
unfolding xor_stream
xor_stream_append key o [] ys = ap (λ t. xor_stream key t ys) (omega arith)
xor_stream_append key o (x ∷ xs) ys =
    ap (λ l. bit_xor x (key_byte key o) ∷ l)
      (xor_stream_append key (o + 1) xs ys
        ∙ ap (λ t. xor_stream key (o + 1) xs ++ xor_stream key t ys) (omega arith))

-- Only the position within the key matters.
pub xor_stream_mod :
    (key : List ℕ) (o p : ℕ) (xs : List ℕ)
    → o % 32 ≡ p % 32
    → xor_stream key o xs ≡ xor_stream key p xs
unfolding xor_stream
xor_stream_mod key o p [] e = refl
xor_stream_mod key o p (x ∷ xs) e = rw (e, xor_stream_mod key (o + 1) (p + 1) xs (omega arith))

drop-cons :
    (i : ℕ) (key : List ℕ)
    → i < length key
    → drop i key ≡ Option.get_or (get_elem? key i) 0 ∷ drop (i + 1) key
drop-cons i [] h = absurd (omega arith)
drop-cons zero (k ∷ ks) h = refl
drop-cons (suc i) (k ∷ ks) h = rw add-one (drop-cons i ks (omega arith) ∙ simp add-one)

xor_zip-drop :
    (key : List ℕ) (i : ℕ) (xs : List ℕ)
    → length key ≡ 32
    → i + length xs ≤ 32
    → xor_zip xs (drop i key) ≡ xor_stream key i xs
unfolding xor_zip xor_stream
xor_zip-drop key i [] e h = refl
xor_zip-drop key i (x ∷ xs) e h =
    let low : i % 32 ≡ i = omega arith in
    rw (drop-cons i key (omega arith), low)
      (ap (λ l. bit_xor x (Option.get_or (get_elem? key i) 0) ∷ l)
        (xor_zip-drop key (i + 1) xs e (omega arith)))

-- A part that ends within the key, and what follows it.
split_stream :
    (n v : ℕ) (key bytes rest : List ℕ)
    → length key ≡ 32
    → v + n ≤ 32
    → n ≤ length bytes
    → rest ≡ xor_stream key (v + n) (drop n bytes)
    → xor_zip (take n bytes) (drop v key) ++ rest ≡ xor_stream key v bytes
split_stream n v key bytes rest e fits le r =
    let len : length (take n bytes) ≡ n = omega (arith, length-take n bytes) in
    let rejoin : xor_stream key v (take n bytes ++ drop n bytes) ≡ xor_stream key v bytes =
      ap (xor_stream key v) (take-append-drop n bytes) in
    let parts = xor_stream_append key v (take n bytes) (drop n bytes) in
    rw (xor_zip-drop key v (take n bytes) e (omega arith), r)
      (ap (λ t. xor_stream key v (take n bytes) ++ xor_stream key (v + t) (drop n bytes)) (sym len)
        ∙ sym parts
        ∙ rejoin)

chunk_loop-suc :
    (fuel : ℕ) (key bytes : List ℕ)
    → chunk_loop (suc fuel) key bytes ≡ (
        if leb 32 (length bytes)
        then (xor_zip (take 32 bytes) key ++ chunk_loop fuel key (drop 32 bytes))
        else xor_zip bytes key)
unfolding chunk_loop
chunk_loop-suc fuel key bytes = ground arith

pub chunk_loop-eq-xor_stream :
    (fuel : ℕ) (key bytes : List ℕ)
    → length key ≡ 32
    → length bytes < fuel
    → chunk_loop fuel key bytes ≡ xor_stream key 0 bytes
chunk_loop-eq-xor_stream zero key bytes e h = elim h [ ]
chunk_loop-eq-xor_stream (suc fuel) key bytes e h = elim (Bool-cases (leb 32 (length bytes))) [
  | inl full ↦
      let rest : chunk_loop fuel key (drop 32 bytes) ≡ xor_stream key 0 (drop 32 bytes) =
        chunk_loop-eq-xor_stream fuel key (drop 32 bytes) e
          (omega (arith, length-drop 32 bytes, leb→le _ _ full)) in
      rw (chunk_loop-suc, full)
        (split_stream 32 0 key bytes _ e (omega arith) (leb→le _ _ full)
          (rest ∙ xor_stream_mod key 0 32 (drop 32 bytes) refl))
  | inr short ↦ rw (chunk_loop-suc, short) (xor_zip-drop key 0 bytes e (ground arith))
]

-- The stream starts over at the key's end, or there is nothing left.
restart :
    (key : List ℕ) (v n : ℕ) (bytes : List ℕ)
    → ((v + n) % 32 ≡ 0) ⊎ (length bytes ≡ 0)
    → xor_stream key 0 bytes ≡ xor_stream key (v + n) bytes
unfolding xor_stream
restart key v n [] h = refl
restart key v n (x ∷ xs) h = xor_stream_mod key 0 (v + n) (x ∷ xs) (omega arith)

-- Whatever the offset and the length, `encrypt` is the stream cipher.
pub xor_encrypt-eq-xor_stream :
    (c : XorCipher) (bytes : List ℕ) (context : CipherContext)
    → length c.basekey ≡ 32
    → xor_encrypt c bytes context
      ≡ xor_stream (key_mix c.basekey (nonce_byte context.nonce)) context.offset bytes
unfolding xor_encrypt
xor_encrypt-eq-xor_stream c bytes context e =
    let key = key_mix c.basekey (nonce_byte context.nonce) in
    let v = context.offset % 32 in
    let n = min (32 - v) (length bytes) in
    let k : length key ≡ 32 = length-key_mix c.basekey (nonce_byte context.nonce) ∙ e in
    elim (Bool-cases (context.offset % 32 == 0)) [
      | inl at_start ↦
          rw (at_start, chunk_loop-eq-xor_stream (suc (length bytes)) key bytes k (omega arith))
            (xor_stream_mod key 0 context.offset bytes (sym ((==_iff _ _).0 at_start)))
      | inr inside ↦ rw inside (
          split_stream n v key bytes _ k (omega arith) (omega arith) (
            chunk_loop-eq-xor_stream (suc (length bytes)) key (drop n bytes) k
              (omega (arith, length-drop n bytes))
            ∙ restart key v n (drop n bytes) (omega (arith, length-drop n bytes)))
          ∙ xor_stream_mod key v context.offset bytes (omega arith))
    ]
