-- ===== src/Prepare/Delimited.antt =====
-- A client can tell where a response ends whose connection stays open.
use ylem.Base.{◌≡◌, ◌⊎◌, true, false, []}
use ylem.Printing.{li_ltostr}
use ylem.Prepare.{holds, ResponseState, bodies_length, without_body, signed, is_head}

-- The end of the body is the end of the connection, or is marked by the chunks or by a
-- Content-Length that the backend has sent, or nothing is queued for a status or a request whose
-- answer has no body, or the Content-Length is the length of what is queued, which is all.
abbrev pub IsDelimited : ResponseState → Type 0
IsDelimited con =
    (con.keep_alive ≡ false)
    ⊎ (con.chunked ≡ true)
    ⊎ (con.has_length ≡ true)
    ⊎ (con.file_finished ≡ true)
      × (con.write_queue ≡ [])
      × ((without_body con.http_status ≡ true) ⊎ (is_head con.http_method ≡ true))
    ⊎ (con.file_finished ≡ true)
      × (con.content_length ≡ holds (li_ltostr (signed (bodies_length con.write_queue))))
