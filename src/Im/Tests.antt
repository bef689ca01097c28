-- ===== src/Im/Tests.antt =====
-- A message that is encrypted and decrypted.
use Prim.Native.Char.{Char, nul}
use text.Mathlib.TextBridge.{to_list, of_list, to_list-of_list, of_list-to_list}
use sman_server.Base.{ℕ, zero, suc, ◌≡◌, refl, none, some, List, [], ◌∷◌, ap}
use sman_server.Im.Cipher.{Fields, encrypt_im_message, decrypt_im_message}
use sman_server.Im.Crypto.{Node, IsSound, cipher, decrypt-encrypt_im_fields}

-- Some characters.
abbrev nuls : ℕ → List Char
nuls zero = []
nuls (suc n) = nul ∷ nuls n

-- Bytes that are characters, and a cipher that leaves the text open, with an empty tag.
abbrev plain : Node Char
plain = record {
  seal = λ key iv text. (text, nuls 16);
  unseal = λ key iv tag text. some text;
  to_base64 = of_list;
  from_base64 = to_list;
  stringify = to_list;
  parse = λ bytes. some (of_list bytes);
}

plain-IsSound : IsSound plain
plain-IsSound = record {
  tag_sized = λ key iv text. refl;
  unseals = λ key iv text e. refl;
  decodes = λ bytes. to_list-of_list bytes;
  parses = λ s. ap some (of_list-to_list s);
}

abbrev greeting : Fields
greeting = record { content = some "hello"; attachments = none }

decrypt-encrypt_im_fields_example :
    decrypt_im_message
      (cipher plain (nuls 32) (λ s. nuls 12))
      (encrypt_im_message (cipher plain (nuls 32) (λ s. nuls 12)) greeting)
    ≡ greeting
decrypt-encrypt_im_fields_example =
    decrypt-encrypt_im_fields plain plain-IsSound (nuls 32) (λ s. nuls 12) greeting (λ s. refl)
