-- ===== src/Printing/Tests.antt =====
-- The theorems on printed numbers at concrete numbers.
use ylem.Base.{◌-◌, ◌^◌, ◌≡◌, refl, negsuc, ◌++◌, codes, arith}
use ylem.Letters.{light_isdigit}
use ylem.Request.Numbers.{strtol}
use ylem.Printing.{li_ltostr, count_shift, hex_from, long_hex}
use ylem.Printing.Decimal.{bits, strtol-li_ltostr}

strtol-li_ltostr_example :
    strtol (li_ltostr (negsuc 41) ++ codes "/7") ≡ (bits (negsuc 41), codes "/7")
unfolding light_isdigit
strtol-li_ltostr_example = strtol-li_ltostr (negsuc 41) (codes "/7") (omega arith) refl

-- The smallest `long` loses its digits.
li_ltostr-smallest : li_ltostr (negsuc (2 ^ 63 - 1)) ≡ codes "-0"
unfolding li_ltostr
li_ltostr-smallest = refl

long_hex-run : long_hex 300 ≡ codes "012c"
unfolding long_hex count_shift hex_from
long_hex-run = refl
