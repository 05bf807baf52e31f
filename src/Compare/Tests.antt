-- ===== src/Compare/Tests.antt =====
-- Comparisons of concrete header names.
use ylem.Base.{pos, negsuc, ◌≡◌, ◌↔◌, refl, true, false, map, codes, bytes_eq}
use ylem.Compare.{caseless_compare, compare_bytes, skip_words, pair_difference}
use ylem.Compare.Caseless.{fold, caseless_compare-fold}

-- A bytewise difference, a shorter name, a byte from 128 on as a negative `char`.
compared :
    (caseless_compare false (codes "Date") (codes "date") ≡ pos 0)
    × (caseless_compare true (codes "Date") (codes "data") ≡ pos 4)
    × (caseless_compare false (codes "Host") (codes "hosts") ≡ negsuc 0)
unfolding caseless_compare compare_bytes skip_words pair_difference bytes_eq
compared = (refl, refl, refl)

caseless_compare-fold_example :
    (caseless_compare true (codes "Content-Length") (codes "content-length") ≡ pos 0)
    ↔ (map fold (codes "Content-Length") ≡ map fold (codes "content-length"))
caseless_compare-fold_example =
    caseless_compare-fold true (codes "Content-Length") (codes "content-length") refl refl
