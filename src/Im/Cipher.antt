-- ===== src/Im/Cipher.antt =====
-- im-crypto.ts: the fields of a message on the wire. The cipher of crypto.ts under the shared key
-- is `encrypt`, and `decrypt`, which throws on what does not authenticate.
use Prim.Native.String.{[] as empty_text, ◌∷◌ as text_cons}
use sman_server.Base.{
  String, ◌≡◌, refl, Option, none, some, ◌==◌, string_eq, if◌then◌else◌, or_default, ap,
}
use sman_server.Base.Texts.{is_empty}

pub record Cipher : Type 0 where
  pub encrypt : String → String
  pub decrypt : String → Option String

-- IM_ENCRYPTED_PREFIX + text.
abbrev prefixed : String → String
prefixed text = text_cons "e" (text_cons "n" (text_cons "c" (text_cons ":" text)))

-- `startsWith("enc:")`, and what follows the prefix.
abbrev pub after_prefix : String → Option String
after_prefix (text_cons a (text_cons b (text_cons c (text_cons d rest)))) =
    if text_cons a (text_cons b (text_cons c (text_cons d empty_text))) == "enc:"
    then some rest
    else none
after_prefix s = none

module _ (k : Cipher) where
  unfoldable pub encrypt_field : String → String
  encrypt_field plaintext = prefixed (k.encrypt plaintext)

  abbrev pub opened : String → Option String → String
  opened ciphertext none = ciphertext
  opened ciphertext (some body) = or_default (k.decrypt body) ciphertext

  unfoldable pub decrypt_field : String → String
  decrypt_field ciphertext = opened ciphertext (after_prefix ciphertext)

-- `if (typeof field === "string" && field)`: a missing field, and an empty one, stay.
abbrev pub on_text : (String → String) → Option String → Option String
on_text f none = none
on_text f (some s) = if is_empty s then some s else some (f s)

-- The two fields of a message that are encrypted.
pub record Fields : Type 0 where
  pub content : Option String
  pub attachments : Option String

module _ (k : Cipher) where
  unfoldable pub encrypt_im_message : Fields → Fields
  encrypt_im_message m = record {
    content = on_text (encrypt_field k) m.content;
    attachments = on_text (encrypt_field k) m.attachments;
  }

  unfoldable pub decrypt_im_message : Fields → Fields
  decrypt_im_message m = record {
    content = on_text (decrypt_field k) m.content;
    attachments = on_text (decrypt_field k) m.attachments;
  }

  module _ (inverse : (s : String) → k.decrypt (k.encrypt s) ≡ some s) where
    decrypt-encrypt_field : (s : String) → decrypt_field k (encrypt_field k s) ≡ s
    unfolding decrypt_field encrypt_field
    decrypt-encrypt_field s = rw (inverse s) refl

    on_text-on_text :
        (o : Option String) → on_text (decrypt_field k) (on_text (encrypt_field k) o) ≡ o
    unfolding encrypt_field
    on_text-on_text none = refl
    on_text-on_text (some empty_text) = refl
    on_text-on_text (some (text_cons c s)) = ap some (decrypt-encrypt_field (text_cons c s))

    -- What is encrypted for the wire decrypts to itself, an empty or a missing field included.
    pub decrypt-encrypt_im_message : (m : Fields) → decrypt_im_message (encrypt_im_message m) ≡ m
    unfolding decrypt_im_message encrypt_im_message
    decrypt-encrypt_im_message m =
        rw (on_text-on_text m.content, on_text-on_text m.attachments) refl
