-- ===== src/Apns.antt =====
-- agent/apns.py: the push service. Bytes are numbers below 256; `sign` is what openssl answers.
mod Tests
pub mod Push
pub mod Der
use srechat.Prelude.{
  ℕ, zero, suc, ◌+◌, ◌-◌, Bool, true, false, not, ◌&&◌, ◌||◌, Option, none, some, List, [], ◌∷◌,
  ◌++◌, leb, ◌==◌, if◌then◌else◌, length, take, drop, is_empty, Outcome, returned, raised, within,
}
use srechat.Text.{codes, lstrip, strip, lower, starts_with}

abbrev pub is_zero : ℕ → Bool
is_zero c = c == 0

abbrev pub zeros : ℕ → List ℕ
zeros zero = []
zeros (suc n) = 0 ∷ zeros n

-- `value.lstrip(b"\x00").rjust(32, b"\x00")`.
unfoldable pub half : List ℕ → List ℕ
unfolding lstrip
half value = let v = lstrip is_zero value in zeros (32 - length v) ++ v

abbrev pub out_of_range : List ℕ
out_of_range = codes "index out of range"

abbrev pub not_an_integer : List ℕ
not_an_integer = codes "expected DER INTEGER"

abbrev pub not_a_sequence : List ℕ
not_a_sequence = codes "not a DER SEQUENCE"

-- `integer(pos)` on the bytes from `pos` on: the half, and the bytes after it.
unfoldable pub integer : List ℕ → Outcome (List ℕ × List ℕ)
unfolding half
integer [] = raised out_of_range
integer (tag ∷ []) = raised (if tag == 0x02 then out_of_range else not_an_integer)
integer (tag ∷ (len ∷ bytes)) =
    if tag == 0x02 then returned (half (take len bytes), drop len bytes) else raised not_an_integer

abbrev pub second_half : List ℕ → Outcome (List ℕ × List ℕ) → Outcome (List ℕ)
second_half r (raised exc) = raised exc
second_half r (returned (s, bytes)) = returned (r ++ s)

abbrev pub both_halves : Outcome (List ℕ × List ℕ) → Outcome (List ℕ)
both_halves (raised exc) = raised exc
both_halves (returned (r, bytes)) = second_half r (integer bytes)

-- `_der_to_raw`. A length byte from 0x80 on is the long form: its low bits are the bytes to skip.
unfoldable pub der_to_raw : List ℕ → Outcome (List ℕ)
unfolding integer
der_to_raw [] = raised not_a_sequence
der_to_raw (tag ∷ []) = raised (if tag == 0x30 then out_of_range else not_a_sequence)
der_to_raw (tag ∷ (len ∷ bytes)) =
    if tag == 0x30
    then both_halves (integer (if leb 0x80 len then drop (len - 0x80) bytes else bytes))
    else raised not_a_sequence

-- `host_for`; an empty environment is an absent one.
unfoldable pub host_for : List ℕ → List ℕ → List ℕ
host_for default_env env =
    let chosen = lower (strip (if is_empty env then default_env else env)) in
    if starts_with (codes "dev") chosen
    then codes "api.sandbox.push.apple.com"
    else codes "api.push.apple.com"

-- `enabled`, with whether the key file exists.
unfoldable pub enabled : List ℕ → List ℕ → List ℕ → Bool → Bool
enabled key_id team_id key_path exists =
    not (is_empty key_id) && not (is_empty team_id) && not (is_empty key_path) && exists

-- `provider_token` with the cached token and its time, and what is minted otherwise; a signature that
-- raises leaves the cache as it was.
unfoldable pub provider_token :
    Option (List ℕ × ℕ) → ℕ → Outcome (List ℕ) → Outcome (List ℕ) × Option (List ℕ × ℕ)
provider_token none now (returned token) = (returned token, some (token, now))
provider_token none now (raised exc) = (raised exc, none)
provider_token (some (cached, at)) now (returned token) =
    if within now at 2400
    then (returned cached, some (cached, at))
    else (returned token, some (token, now))
provider_token (some (cached, at)) now (raised exc) =
    if within now at 2400
    then (returned cached, some (cached, at))
    else (raised exc, some (cached, at))
