-- ===== src/Base/Texts.antt =====
-- Texts as JavaScript tests them: truth, `||`, `startsWith` and `includes` of a character.
use Prim.Native.Char.{Char}
use Prim.Native.String.{String, [] as empty_text, ◌∷◌ as text_cons}
use mathlib.Core.Bool.{Bool, true, false, ◌&&◌, ◌||◌}
use mathlib.Core.Option.{Option, none, some}
use sman_server.Base.Compare.{if◌then◌else◌}
use sman_server.Base.Keys.{◌==◌, string_eq}

-- `!text`.
abbrev pub is_empty : String → Bool
is_empty empty_text = true
is_empty (text_cons c s) = false

-- `text || other`.
abbrev pub or_text : String → String → String
or_text text other = if is_empty text then other else text

-- `text || undefined`.
abbrev pub or_undefined : String → Option String
or_undefined text = if is_empty text then none else some text

abbrev same_char : Char → Char → Bool
same_char c d = text_cons c empty_text == text_cons d empty_text

-- `text.startsWith(prefix)`, with the prefix first.
unfoldable pub starts_with_text : String → String → Bool
starts_with_text empty_text text = true
starts_with_text (text_cons c p) empty_text = false
starts_with_text (text_cons c p) (text_cons d text) = same_char c d && starts_with_text p text

-- `text.includes("/")`.
unfoldable pub has_slash : String → Bool
has_slash empty_text = false
has_slash (text_cons c text) = same_char c "/" || has_slash text

-- `text.split("@")[0]`.
unfoldable pub before_at : String → String
before_at empty_text = empty_text
before_at (text_cons c text) =
    let rest = before_at text in if same_char c "@" then empty_text else text_cons c rest
