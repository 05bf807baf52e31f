-- ===== src/Encoding/Tests.antt =====
-- The encodings and the decoding at concrete strings.
use ylem.Base.{◌≡◌, ◌++◌, refl, true, false, some, [], ◌∷◌, arith, codes, inr}
use ylem.Memory.Samples.{plain}
use ylem.Buffer.{Buffer}
use ylem.Buffer.Append.{Yields}
use ylem.Encoding.{
  html, rel_uri_part, char_map, encode, escape, decode_from, hex_pair, hex2int,
  append_string_encoded,
}
use ylem.Encoding.Chars.{encoded_chars_html, encoded_chars_rel_uri_part}
use ylem.Encoding.Append.{append_string_encoded-Yields}
use ylem.Encoding.Decode.{decode-encode}

-- A `+` is a space in a query only, a bad escape stays, a control character becomes `_`.
decoded :
    (decode_from true 0 (codes "a+b%20c") ≡ codes "a b c")
    × (decode_from false 0 (codes "a+b%2") ≡ codes "a+b%2")
    × (decode_from false 0 (codes "%0a%zz%7F") ≡ codes "_%zz_")
unfolding decode_from hex_pair hex2int
decoded = (refl, refl, refl)

decode-encode_example :
    decode_from true 0 (encode rel_uri_part encoded_chars_rel_uri_part (codes "a+b/%"))
    ≡ codes "a+b/%"
decode-encode_example = decode-encode true (codes "a+b/%") refl

abbrev page : Buffer
page = record { ptr = codes "x" ++ 0 ∷ []; used = 2; size = 2 }

html_map : char_map html ≡ some encoded_chars_html
unfolding char_map
html_map = refl

append_string_encoded-Yields_example :
    Yields
      (append_string_encoded plain page (some (codes "<")) html)
      (codes "x" ++ encode html encoded_chars_html (codes "<"))
unfolding encode encoded_chars_html escape
append_string_encoded-Yields_example =
    append_string_encoded-Yields plain page (codes "x") (codes "<") encoded_chars_html html
      (record { storage = refl; fits = omega arith }) (inr (refl, refl)) (λ e. absurd (omega arith))
      html_map (omega arith)

abbrev url : Buffer
url = record { ptr = codes "%41" ++ 0 ∷ []; used = 4; size = 4 }
