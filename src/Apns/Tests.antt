-- ===== src/Apns/Tests.antt =====
-- Runs of agent/apns.py at concrete inputs.
use srechat.Prelude.{ℕ, ◌≡◌, refl, List, [], ◌∷◌, ◌++◌, returned}
use srechat.Apns.{zeros, der_to_raw}
use srechat.Apns.Der.{encode, der_to_raw-encode}

-- The numbers 1 and 128, in 32 bytes.
abbrev one : List ℕ
one = zeros 31 ++ 1 ∷ []

abbrev high_bit : List ℕ
high_bit = zeros 31 ++ 128 ∷ []

der_to_raw-encode_example : der_to_raw (encode one high_bit) ≡ returned (one ++ high_bit)
der_to_raw-encode_example = der_to_raw-encode one high_bit refl refl
