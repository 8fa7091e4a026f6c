-- ===== src/Apns/Der.antt =====
-- agent/apns.py: `_der_to_raw` against an encoder of DER.
use srechat.Prelude.{
  ℕ, zero, suc, ◌-◌, ◌≤◌, ◌≡◌, refl, sym, ap, ◌∙◌, false, List, [], ◌∷◌, ◌++◌, arith, leb,
  if◌then◌else◌, length, length-append, take, drop, append-nil, returned, Bool-cases, inl, inr,
}
use srechat.Text.{lstrip}
use srechat.Apns.{is_zero, zeros, half, integer, second_half, der_to_raw}

-- A byte more where the first one has the high bit, and for the number zero: DER has signed numbers.
abbrev pub with_sign : List ℕ → List ℕ
with_sign [] = 0 ∷ []
with_sign (c ∷ s) = if leb 0x80 c then 0 ∷ (c ∷ s) else c ∷ s

-- The DER INTEGER of a number given by its bytes, and the SEQUENCE of two.
unfoldable pub encode_integer : List ℕ → List ℕ
encode_integer r = let v = with_sign (lstrip is_zero r) in 0x02 ∷ (length v ∷ v)

unfoldable pub encode : List ℕ → List ℕ → List ℕ
encode r s = let body = encode_integer r ++ encode_integer s in 0x30 ∷ (length body ∷ body)

take-append : (xs ys : List ℕ) → take (length xs) (xs ++ ys) ≡ xs
take-append [] ys = refl
take-append (x ∷ xs) ys = ap (λ (t : List ℕ). x ∷ t) (take-append xs ys)

drop-append : (xs ys : List ℕ) → drop (length xs) (xs ++ ys) ≡ ys
drop-append [] ys = refl
drop-append (x ∷ xs) ys = drop-append xs ys

length-lstrip-le : (r : List ℕ) → length (lstrip is_zero r) ≤ length r
unfolding lstrip
length-lstrip-le [] = omega arith
length-lstrip-le (c ∷ r) = ground (arith, length-lstrip-le r)

zeros_minus : (n m : ℕ) → m ≤ n → zeros (suc n - m) ≡ 0 ∷ zeros (n - m)
zeros_minus n m h = let e : suc n - m ≡ suc (n - m) = omega (arith, h) in rw e refl

nonzero : (c : ℕ) → is_zero (suc c) ≡ false
nonzero c = ground arith

-- What is stripped can be put back.
padded : (r : List ℕ) → zeros (length r - length (lstrip is_zero r)) ++ lstrip is_zero r ≡ r
unfolding lstrip
padded [] = refl
padded (zero ∷ r) =
    ap (λ (t : List ℕ). t ++ lstrip is_zero r)
      (zeros_minus (length r) (length (lstrip is_zero r)) (length-lstrip-le r))
    ∙ ap (λ (t : List ℕ). 0 ∷ t) (padded r)
padded (suc c ∷ r) = rw (nonzero c) (ap (λ n. zeros n ++ suc c ∷ r) (same (length r)))
  where
    same : (n : ℕ) → suc n - suc n ≡ 0
    same n = omega arith

lstrip-with_sign : (r : List ℕ) → lstrip is_zero (with_sign (lstrip is_zero r)) ≡ lstrip is_zero r
unfolding lstrip
lstrip-with_sign [] = refl
lstrip-with_sign (zero ∷ r) = lstrip-with_sign r
lstrip-with_sign (suc c ∷ r) = rw (nonzero c) (elim (Bool-cases (leb 0x80 (suc c))) [
  | inl e ↦ rw (e, nonzero c) refl
  | inr e ↦ rw (e, nonzero c) refl
])

length-with_sign-le : (s : List ℕ) → length (with_sign s) ≤ suc (length s)
length-with_sign-le [] = omega arith
length-with_sign-le (c ∷ s) = elim (Bool-cases (leb 0x80 c)) [
  | inl e ↦ rw e (omega arith)
  | inr e ↦ rw e (omega arith)
]

half-with_sign : (r : List ℕ) → length r ≡ 32 → half (with_sign (lstrip is_zero r)) ≡ r
unfolding half
half-with_sign r h = rw (lstrip-with_sign r, ← h) (padded r)

integer-encode :
    (r bytes : List ℕ) → length r ≡ 32 → integer (encode_integer r ++ bytes) ≡ returned (r, bytes)
unfolding integer encode_integer
integer-encode r bytes h =
    let v = with_sign (lstrip is_zero r) in
    rw (take-append v bytes, drop-append v bytes, half-with_sign r h) refl

length-encode_integer-le : (r : List ℕ) → length r ≡ 32 → length (encode_integer r) ≤ 35
unfolding encode_integer
length-encode_integer-le r h =
    omega (arith, length-with_sign-le (lstrip is_zero r), length-lstrip-le r, h)

is_short :
    (r s : List ℕ)
    → length r ≡ 32
    → length s ≡ 32
    → leb 0x80 (length (encode_integer r ++ encode_integer s)) ≡ false
is_short r s h k = short (
    omega (
      arith,
      length-append (encode_integer r) (encode_integer s),
      length-encode_integer-le r h,
      length-encode_integer-le s k,
    ))
  where
    short :
        length (encode_integer r ++ encode_integer s) ≤ 70
        → leb 0x80 (length (encode_integer r ++ encode_integer s)) ≡ false
    short h = ground arith

-- A signature of two numbers of 32 bytes, encoded in DER, comes back as its 64 bytes: numbers with
-- leading zeros and with the high bit set included.
pub der_to_raw-encode :
    (r s : List ℕ) → length r ≡ 32 → length s ≡ 32 → der_to_raw (encode r s) ≡ returned (r ++ s)
unfolding der_to_raw encode
der_to_raw-encode r s h k =
    rw (is_short r s h k, integer-encode r (encode_integer s) h)
      (ap (second_half r)
        (ap integer (sym (append-nil (encode_integer s))) ∙ integer-encode s [] k))
