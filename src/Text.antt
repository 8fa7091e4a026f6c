-- ===== src/Text.antt =====
-- Python's `str`, as the list of its code points, with the methods that the agent calls.
mod Equality
mod Lines
mod Strip
unfoldable pub use Equality.*
unfoldable pub use Lines.*
unfoldable pub use Strip.*
use Prim.Native.Char.{code}
use srechat.Prelude.{
  ℕ, zero, suc, ◌+◌, ◌-◌, ◌*◌, ◌/◌, ◌%◌, String, Bool, true, false, ◌&&◌, ◌||◌, List, [], ◌∷◌, ◌++◌,
  map, ltb, leb, ◌==◌, if◌then◌else◌, is_empty,
}

-- A text literal.
abbrev pub codes : String → List ℕ
codes String.[] = []
codes (String.◌∷◌ c s) = code c ∷ codes s

-- `str.lower` on the Latin letters of ASCII. The keyword tables of the source are ASCII.
unfoldable pub to_lower : ℕ → ℕ
to_lower c = if leb b'A' c && leb c b'Z' then c + 32 else c

unfoldable pub to_upper : ℕ → ℕ
to_upper c = if leb b'a' c && leb c b'z' then c - 32 else c

unfoldable pub lower : List ℕ → List ℕ
unfolding to_lower
lower s = map to_lower s

unfoldable pub upper : List ℕ → List ℕ
unfolding to_upper
upper s = map to_upper s

-- `sep.join(parts)`.
unfoldable pub join : List ℕ → List (List ℕ) → List ℕ
join sep [] = []
join sep (part ∷ []) = part
join sep (part ∷ (next ∷ rest)) = part ++ (sep ++ join sep (next ∷ rest))

-- `str(n)`; the fuel `n + 1` is more than the digits.
show_digits : ℕ → ℕ → List ℕ
show_digits zero n = []
show_digits (suc fuel) n =
    let more = show_digits fuel (n / 10) ++ (b'0' + n % 10) ∷ [] in
    if ltb n 10 then (b'0' + n) ∷ [] else more

unfoldable pub show : ℕ → List ℕ
unfolding show_digits
show n = show_digits (suc n) n

-- `str(int(a - b))`.
unfoldable pub show_difference : ℕ → ℕ → List ℕ
unfolding show
show_difference a b = if ltb a b then b'-' ∷ show (b - a) else show (a - b)

abbrev pub is_digit : ℕ → Bool
is_digit c = leb b'0' c && leb c b'9'

-- The number that the digits at the front of the text make, with what was read before.
unfoldable pub digits_from : ℕ → List ℕ → ℕ
digits_from n [] = n
digits_from n (c ∷ text) =
    let more = digits_from (n * 10 + (c - b'0')) text in if is_digit c then more else n
