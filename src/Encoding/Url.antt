-- ===== src/Encoding/Url.antt =====
-- `buffer_urldecode_path` and `buffer_urldecode_query` on a whole buffer.
use ylem.Base.{ℕ, Bytes, Bool, true, not, ◌==◌, ◌≡◌, ◌≢◌}
use ylem.Buffer.{Buffer}
use ylem.Buffer.Inv.{IsValid, Holds}
use ylem.Encoding.{decode_from}
use ylem.Encoding.Bytewise.{all_bytes}

-- No byte is the terminator.
abbrev pub is_text : ℕ → Bool
is_text c = not (c == 0)

module _ (q : Bool) (b : Buffer) (t : Bytes) (v : IsValid b) (h : Holds b t) (busy : b.used ≢ 0)
    (text : all_bytes is_text t ≡ true) where
  abbrev out : Bytes
  out = decode_from q 0 t
