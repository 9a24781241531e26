-- ===== src/Yara/Text.antt =====
-- The texts of vxsig/yara_signature_formatter.cc. 10 is the end of a line.
use vxsig.Prelude.{[], ◌∷◌}
use vxsig.Signature.{Bytes}

abbrev pub rule_text : Bytes
rule_text = b'r' ∷ b'u' ∷ b'l' ∷ b'e' ∷ b' ' ∷ []

abbrev pub open_text : Bytes
open_text = b' ' ∷ b'{' ∷ 10 ∷ []

abbrev pub meta_text : Bytes
meta_text = b' ' ∷ b' ' ∷ b'm' ∷ b'e' ∷ b't' ∷ b'a' ∷ b':' ∷ 10 ∷ []

abbrev pub true_text : Bytes
true_text = b't' ∷ b'r' ∷ b'u' ∷ b'e' ∷ []

abbrev pub false_text : Bytes
false_text = b'f' ∷ b'a' ∷ b'l' ∷ b's' ∷ b'e' ∷ []

abbrev pub equals_text : Bytes
equals_text = b' ' ∷ b'=' ∷ b' ' ∷ []

abbrev pub strings_text : Bytes
strings_text =
    b' ' ∷ b' ' ∷ b's' ∷ b't' ∷ b'r' ∷ b'i' ∷ b'n' ∷ b'g' ∷ b's' ∷ b':' ∷ 10 ∷ b' ' ∷ b' ' ∷ b' '
    ∷ b' ' ∷ b'$' ∷ b' ' ∷ b'=' ∷ b' ' ∷ b'{' ∷ 10 ∷ []

abbrev pub indent_text : Bytes
indent_text = b' ' ∷ b' ' ∷ b' ' ∷ b' ' ∷ b' ' ∷ b' ' ∷ []

abbrev pub wildcard_text : Bytes
wildcard_text = b'[' ∷ b'-' ∷ b']' ∷ []

abbrev pub no_wildcard_text : Bytes
no_wildcard_text = b' ' ∷ b' ' ∷ b' ' ∷ []

abbrev pub comment_text : Bytes
comment_text =
    b' ' ∷ b' ' ∷ b' ' ∷ b' ' ∷ b' ' ∷ b' ' ∷ b' ' ∷ b' ' ∷ b' ' ∷ b'/' ∷ b'/' ∷ b' ' ∷ []

abbrev pub masking_text : Bytes
masking_text = b' ' ∷ b' ' ∷ b' ' ∷ b' ' ∷ b' ' ∷ b' ' ∷ b'/' ∷ b'/' ∷ b' ' ∷ []

abbrev pub weight_text : Bytes
weight_text =
    b' ' ∷ b' ' ∷ b' ' ∷ b' ' ∷ b' ' ∷ b' ' ∷ b' ' ∷ b' ' ∷ b' ' ∷ b'/' ∷ b'/' ∷ b' ' ∷ b'W' ∷ b'e'
    ∷ b'i' ∷ b'g' ∷ b'h' ∷ b't' ∷ b':' ∷ b' ' ∷ []

abbrev pub condition_text : Bytes
condition_text =
    10 ∷ b' ' ∷ b' ' ∷ b'}' ∷ 10 ∷ b' ' ∷ b' ' ∷ b'c' ∷ b'o' ∷ b'n' ∷ b'd' ∷ b'i' ∷ b't' ∷ b'i'
    ∷ b'o' ∷ b'n' ∷ b':' ∷ 10 ∷ b' ' ∷ b' ' ∷ b' ' ∷ b' ' ∷ b'a' ∷ b'l' ∷ b'l' ∷ b' ' ∷ b'o' ∷ b'f'
    ∷ b' ' ∷ b't' ∷ b'h' ∷ b'e' ∷ b'm' ∷ 10 ∷ b'}' ∷ 10 ∷ []
