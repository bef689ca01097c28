-- ===== src/Im/Crypto.antt =====
-- crypto.ts: encrypt and decrypt, of a text under a key that is given. A buffer is the list of its
-- bytes, which nothing looks into; the nonce that is drawn is an argument. Node's AES-256-GCM, base64 and JSON are parameters.
use sman_server.Base.{
  ℕ, zero, suc, ◌+◌, ◌-◌, ◌*◌, String, ◌≡◌, refl, ◌∙◌, ap, Option, none, some, List, [], ◌∷◌, ◌++◌,
  length, take, arith, ltb, if◌then◌else◌,
}
use mathlib.Core.List.{append_assoc}
use sman_server.Im.Cipher.{
  Cipher, Fields, encrypt_im_message, decrypt_im_message, decrypt-encrypt_im_message,
}

-- What crypto.ts calls: the cipher with its final call and its tag, the decipher, which throws on
-- what does not authenticate or has no nonce or tag of the right length, and the two codings.
pub record Node (Byte : Type 0) : Type 0 where
  pub seal : (key iv plaintext : List Byte) → List Byte × List Byte
  pub unseal : (key iv tag ciphertext : List Byte) → Option (List Byte)
  pub to_base64 : List Byte → String
  pub from_base64 : String → List Byte
  pub stringify : String → List Byte
  pub parse : List Byte → Option String

abbrev pub iv_length : ℕ
iv_length = 12

abbrev pub auth_tag_length : ℕ
auth_tag_length = 16

-- The index `buf.length - AUTH_TAG_LENGTH`, where a negative one counts from the end.
abbrev pub tag_start : ℕ → ℕ
tag_start n = if ltb n auth_tag_length then 2 * n - auth_tag_length else n - auth_tag_length

module _ {Byte : Type 0} where
  pub drop : ℕ → List Byte → List Byte
  drop zero bs = bs
  drop (suc n) [] = []
  drop (suc n) (b ∷ bs) = drop n bs

  -- `buf.subarray(start, end)`.
  abbrev pub subarray : ℕ → ℕ → List Byte → List Byte
  unfolding drop
  subarray start end bs = take (end - start) (drop start bs)

  module _ (node : Node Byte) (key : List Byte) where
    abbrev pub packed : List Byte → List Byte × List Byte → String
    packed iv (encrypted, auth_tag) = node.to_base64 (iv ++ encrypted ++ auth_tag)

    unfoldable pub encrypt : List Byte → String → String
    encrypt iv text = packed iv (node.seal key iv (node.stringify text))

    -- The slices of the decoded buffer, in the order of the arguments of the decipher.
    abbrev pub unpacked : List Byte → Option (List Byte)
    unpacked buf =
        let tag = tag_start (length buf) in
        node.unseal key (subarray 0 iv_length buf) (subarray tag (length buf) buf)
          (subarray iv_length tag buf)

    abbrev pub parsed : Option (List Byte) → Option String
    parsed none = none
    parsed (some decrypted) = node.parse decrypted

    unfoldable pub decrypt : String → Option String
    decrypt encoded = parsed (unpacked (node.from_base64 encoded))

    -- The cipher of im-crypto.ts, with the nonce that is drawn for each text.
    abbrev pub cipher : (String → List Byte) → Cipher
    cipher iv = record { encrypt = λ s. encrypt (iv s) s; decrypt = decrypt }

  length-append : (xs ys : List Byte) → length (xs ++ ys) ≡ length xs + length ys
  length-append [] ys = omega arith
  length-append (x ∷ xs) ys = omega (arith, length-append xs ys)

  take-append : (n : ℕ) (xs ys : List Byte) → length xs ≡ n → take n (xs ++ ys) ≡ xs
  take-append zero [] ys e = refl
  take-append zero (x ∷ xs) ys e = absurd (omega (arith, e))
  take-append (suc n) [] ys e = absurd (omega (arith, e))
  take-append (suc n) (x ∷ xs) ys e = ap (λ zs. x ∷ zs) (take-append n xs ys (omega (arith, e)))

  drop-append : (n : ℕ) (xs ys : List Byte) → length xs ≡ n → drop n (xs ++ ys) ≡ ys
  unfolding drop
  drop-append zero [] ys e = refl
  drop-append zero (x ∷ xs) ys e = absurd (omega (arith, e))
  drop-append (suc n) [] ys e = absurd (omega (arith, e))
  drop-append (suc n) (x ∷ xs) ys e = drop-append n xs ys (omega (arith, e))

  take_all : (n : ℕ) (xs : List Byte) → length xs ≡ n → take n xs ≡ xs
  take_all zero [] e = refl
  take_all zero (x ∷ xs) e = absurd (omega (arith, e))
  take_all (suc n) [] e = absurd (omega (arith, e))
  take_all (suc n) (x ∷ xs) e = ap (λ zs. x ∷ zs) (take_all n xs (omega (arith, e)))

  -- The documented behaviour of the primitives: what was sealed under a key and a nonce of the right
  -- length is unsealed with its tag, which has the length asked for, and the codings are inverse.
  pub record IsSound (node : Node Byte) : Type 0 where
    pub tag_sized : (key iv bs : List Byte) → length (node.seal key iv bs).1 ≡ auth_tag_length
    pub unseals :
        (key iv bs : List Byte)
        → length iv ≡ iv_length
        → node.unseal key iv (node.seal key iv bs).1 (node.seal key iv bs).0 ≡ some bs
    pub decodes : (bs : List Byte) → node.from_base64 (node.to_base64 bs) ≡ bs
    pub parses : (s : String) → node.parse (node.stringify s) ≡ some s

  module _ (iv body tag : List Byte) (sized : length iv ≡ iv_length)
      (tagged : length tag ≡ auth_tag_length) where
    abbrev buf : List Byte
    buf = iv ++ body ++ tag

    length-buf : length buf ≡ iv_length + length body + auth_tag_length
    length-buf = omega (arith, length-append (iv ++ body) tag, length-append iv body, sized, tagged)

    start : tag_start (length buf) ≡ iv_length + length body
    start = rw length-buf (enough (length body))
      where
        enough : (n : ℕ) → tag_start (iv_length + n + auth_tag_length) ≡ iv_length + n
        enough n = ground arith

    iv_slice : subarray 0 iv_length buf ≡ iv
    unfolding drop
    iv_slice = rw (append_assoc iv body tag) (take-append iv_length iv (body ++ tag) sized)

    body_slice : subarray iv_length (tag_start (length buf)) buf ≡ body
    unfolding subarray
    body_slice =
        rw (start, append_assoc iv body tag, drop-append iv_length iv (body ++ tag) sized)
          (take-append (iv_length + length body - iv_length) body tag (omega arith))

    tag_slice : subarray (tag_start (length buf)) (length buf) buf ≡ tag
    unfolding subarray
    tag_slice =
        rw
          (
            start,
            length-buf,
            drop-append (iv_length + length body) (iv ++ body) tag
                (omega (arith, length-append iv body, sized)),
          )
          (take_all (iv_length + length body + auth_tag_length - (iv_length + length body)) tag
            (omega (arith, tagged)))

  module _ (node : Node Byte) (sound : IsSound node) (key : List Byte) where
    unpacked-packed :
        (iv body tag : List Byte)
        → length iv ≡ iv_length
        → length tag ≡ auth_tag_length
        → unpacked node key (iv ++ body ++ tag) ≡ node.unseal key iv tag body
    unpacked-packed iv body tag s t = λ j.
        node.unseal key (iv_slice iv body tag s t j) (tag_slice iv body tag s t j)
          (body_slice iv body tag s t j)

    decrypt-encrypt :
        (iv : List Byte) (s : String)
        → length iv ≡ iv_length
        → decrypt node key (encrypt node key iv s) ≡ some s
    unfolding decrypt encrypt
    decrypt-encrypt iv s e =
        let bs = node.stringify s in
        let sealed = node.seal key iv bs in
        let bytes = sound.decodes (iv ++ sealed.0 ++ sealed.1) in
        let plain = unpacked-packed iv sealed.0 sealed.1 e (sound.tag_sized key iv bs) in
        ap (λ b. parsed node key (unpacked node key b)) bytes
        ∙ ap (parsed node key) (plain ∙ sound.unseals key iv bs e)
        ∙ sound.parses s

    -- What is encrypted for the wire under a key, with a nonce of twelve bytes for each text, decrypts
    -- to itself under the same key, an empty or a missing field included, when what is sealed is
    -- unsealed and the codings are inverse.
    pub decrypt-encrypt_im_fields :
        (iv : String → List Byte) (m : Fields)
        → ((s : String) → length (iv s) ≡ iv_length)
        → decrypt_im_message (cipher node key iv) (encrypt_im_message (cipher node key iv) m) ≡ m
    decrypt-encrypt_im_fields iv m sized =
        decrypt-encrypt_im_message (cipher node key iv) (λ s. decrypt-encrypt (iv s) s (sized s)) m
