-- ===== src/Letters/Tests.antt =====
-- Case folding of a concrete buffer.
use ylem.Base.{◌≡◌, ◌++◌, refl, true, false, [], ◌∷◌, codes}
use ylem.Buffer.{Buffer}
use ylem.Letters.{light_isdigit, light_isxdigit, light_isalpha, light_isalnum}

classes :
    (light_isxdigit b'F' ≡ true)
    × (light_isxdigit b'g' ≡ false)
    × (light_isalpha b'[' ≡ false)
    × (light_isalnum b'7' ≡ true)
unfolding light_isxdigit light_isalpha light_isalnum light_isdigit
classes = (refl, refl, refl, refl)

abbrev name : Buffer
name = record { ptr = codes "Host" ++ 0 ∷ []; used = 5; size = 5 }
