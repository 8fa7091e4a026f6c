-- ===== src/Relay/Frame/RoundTrip.antt =====
-- tools/ws_relay.py: a frame as RFC 6455 encodes it is read back.
use srechat.Prelude.{
  ℕ, zero, suc, ◌+◌, ◌*◌, ◌/◌, ◌%◌, ◌^◌, ◌<◌, ◌≡◌, refl, sym, ap, ◌∙◌, some, List, [], ◌∷◌, ◌++◌,
  arith, ltb, ltb→lt, if◌then◌else◌, length, length-append, subst, Bool-cases, ◌⊎◌, inl, inr,
}
use native.Mathlib.Nat.{pow-suc}
use mathlib.Core.List.{append_assoc}
use srechat.Relay.Frame.{
  Header, from_bytes, split_at, read_number, read_length, read_mask, read_payload, read_masked,
  read_rest, header_of, take_frame,
}

-- A number as `n` bytes, the highest first.
unfoldable pub to_bytes : ℕ → ℕ → List ℕ
to_bytes zero v = []
to_bytes (suc n) v = to_bytes n (v / 256) ++ (v % 256) ∷ []

-- The seven bits of a length, and the bytes behind them.
unfoldable pub encode_length : ℕ → ℕ × List ℕ
unfolding to_bytes
encode_length len =
    if ltb len 126
    then (len, [])
    else if ltb len 65536
    then (126, to_bytes 2 len)
    else (127, to_bytes 8 len)

abbrev pub mask_bit : List ℕ → ℕ
mask_bit [] = 0
mask_bit (b ∷ mask) = 1

-- The frame with these first four bits, opcode, mask and payload; no mask stands for none.
unfoldable pub encode : ℕ → ℕ → List ℕ → List ℕ → List ℕ
unfolding encode_length
encode bits opcode mask payload =
    let l = encode_length (length payload) in
    (bits * 16 + opcode) ∷ ((mask_bit mask * 128 + l.0) ∷ (l.1 ++ (mask ++ payload)))

split_at-append : (xs tail : List ℕ) → split_at (length xs) (xs ++ tail) ≡ some (xs, tail)
unfolding split_at
split_at-append [] tail = refl
split_at-append (x ∷ xs) tail = rw (split_at-append xs tail) refl

from_bytes-append :
    (acc b : ℕ) (xs : List ℕ) → from_bytes acc (xs ++ b ∷ []) ≡ from_bytes acc xs * 256 + b
unfolding from_bytes
from_bytes-append acc b [] = refl
from_bytes-append acc b (x ∷ xs) = from_bytes-append (acc * 256 + x) b xs

below-div : (n v : ℕ) → v < 256 ^ suc n → v / 256 < 256 ^ n
below-div n v h = omega (arith, h, pow-suc 256 n)

from-to : (n v : ℕ) → v < 256 ^ n → from_bytes 0 (to_bytes n v) ≡ v
unfolding to_bytes
from-to zero v h = unfold from_bytes in omega (arith, h)
from-to (suc n) v h =
    rw (from_bytes-append 0 (v % 256) (to_bytes n (v / 256)))
      (rw (from-to n (v / 256) (below-div n v h)) (omega arith))

length-to_bytes : (n v : ℕ) → length (to_bytes n v) ≡ n
unfolding to_bytes
length-to_bytes zero v = refl
length-to_bytes (suc n) v =
    rw (length-append (to_bytes n (v / 256)) (v % 256 ∷ []))
      (omega (arith, length-to_bytes n (v / 256)))

read_number-to_bytes :
    (n v : ℕ) (tail : List ℕ) → v < 256 ^ n → read_number n (to_bytes n v ++ tail) ≡ some (v, tail)
read_number-to_bytes n v tail h =
    unfold read_number in
    let e : split_at n (to_bytes n v ++ tail) ≡ some (to_bytes n v, tail) =
      subst (λ k. split_at k (to_bytes n v ++ tail) ≡ some (to_bytes n v, tail))
        (length-to_bytes n v) (split_at-append (to_bytes n v) tail) in
    rw e (rw (from-to n v h) refl)

read_length-wide :
    (len : ℕ) (tail : List ℕ)
    → len < 2 ^ 64
    → read_length 127 (to_bytes 8 len ++ tail) ≡ some (len, tail)
unfolding read_length
read_length-wide len tail h = read_number-to_bytes 8 len tail (omega (arith, h))

read_length-medium :
    (len : ℕ) (tail : List ℕ)
    → len < 65536
    → read_length 126 (to_bytes 2 len ++ tail) ≡ some (len, tail)
unfolding read_length
read_length-medium len tail h = read_number-to_bytes 2 len tail (omega (arith, h))

read_length-short : (len : ℕ) (tail : List ℕ) → len < 126 → read_length len tail ≡ some (len, tail)
unfolding read_length
read_length-short len tail h = ground arith

read_length-encode :
    (len : ℕ) (tail : List ℕ)
    → len < 2 ^ 64
    → read_length ((encode_length len).0) ((encode_length len).1 ++ tail) ≡ some (len, tail)
unfolding encode_length
read_length-encode len tail h = elim (Bool-cases (ltb len 126)) [
  | inl e ↦ rw e (read_length-short len tail (ltb→lt len 126 e))
  | inr e ↦ elim (Bool-cases (ltb len 65536)) [
    | inl m ↦ rw (e, m) (read_length-medium len tail (ltb→lt len 65536 m))
    | inr m ↦ rw (e, m) (read_length-wide len tail h)
  ]
]

read_mask-encode :
    (mask tail : List ℕ)
    → (length mask ≡ 0) ⊎ (length mask ≡ 4)
    → read_mask (mask_bit mask) (mask ++ tail) ≡ some (mask, tail)
unfolding read_mask
read_mask-encode [] tail h = refl
read_mask-encode (a ∷ mask) tail (inl e) = absurd (omega (arith, e))
read_mask-encode (a ∷ mask) tail (inr e) =
    subst (λ k. split_at k (a ∷ (mask ++ tail)) ≡ some (a ∷ mask, tail)) e
      (split_at-append (a ∷ mask) tail)

-- The header that `encode` writes.
abbrev pub encoded_header : ℕ → ℕ → List ℕ → List ℕ → Header
encoded_header bits opcode mask payload = record {
  fin = bits / 8;
  rsv1 = bits / 4 % 2;
  rsv2 = bits / 2 % 2;
  rsv3 = bits % 2;
  opcode = opcode;
  masked = mask_bit mask;
  len = length payload;
  mask = mask;
}

bits-below : (len : ℕ) → (encode_length len).0 < 128
unfolding encode_length
bits-below len = ground arith

header_of-encode :
    (bits opcode l : ℕ) (mask payload : List ℕ)
    → bits < 16
    → opcode < 16
    → l < 128
    → header_of (bits * 16 + opcode) (mask_bit mask * 128 + l) (length payload) mask
      ≡ encoded_header bits opcode mask payload
header_of-encode bits opcode l [] payload hb ho hl = ground arith
header_of-encode bits opcode l (m ∷ mask) payload hb ho hl = ground arith

second-byte :
    (l : ℕ) (mask : List ℕ)
    → l < 128
    → ((mask_bit mask * 128 + l) / 128 ≡ mask_bit mask) × ((mask_bit mask * 128 + l) % 128 ≡ l)
second-byte l [] h = (omega (arith, h), omega (arith, h))
second-byte l (m ∷ mask) h = (omega (arith, h), omega (arith, h))

read_masked-encode :
    (b0 b1 : ℕ) (mask payload rest : List ℕ)
    → b1 / 128 ≡ mask_bit mask
    → (length mask ≡ 0) ⊎ (length mask ≡ 4)
    → read_masked b0 b1 (length payload) (mask ++ (payload ++ rest))
      ≡ some (record { header = header_of b0 b1 (length payload) mask; payload = payload }, rest)
unfolding read_masked read_payload
read_masked-encode b0 b1 mask payload rest e hm =
    let em : read_mask (b1 / 128) (mask ++ (payload ++ rest)) ≡ some (mask, payload ++ rest) =
      ap (λ m. read_mask m (mask ++ (payload ++ rest))) e
      ∙ read_mask-encode mask (payload ++ rest) hm in
    rw em (rw (split_at-append payload rest) refl)

read_rest-encode :
    (b0 b1 : ℕ) (mask payload rest : List ℕ)
    → b1 % 128 ≡ (encode_length (length payload)).0
    → b1 / 128 ≡ mask_bit mask
    → (length mask ≡ 0) ⊎ (length mask ≡ 4)
    → length payload < 2 ^ 64
    → read_rest b0 b1 ((encode_length (length payload)).1 ++ (mask ++ (payload ++ rest)))
      ≡ some (record { header = header_of b0 b1 (length payload) mask; payload = payload }, rest)
unfolding read_rest
read_rest-encode b0 b1 mask payload rest el em hm hp = rw el (
    rw (read_length-encode (length payload) (mask ++ (payload ++ rest)) hp)
      (read_masked-encode b0 b1 mask payload rest em hm))

append-assoc4 :
    (l mask payload rest : List ℕ)
    → (l ++ (mask ++ payload)) ++ rest ≡ l ++ (mask ++ (payload ++ rest))
append-assoc4 l mask payload rest =
    append_assoc l (mask ++ payload) rest ∙ ap (λ t. l ++ t) (append_assoc mask payload rest)

-- The relay reads a frame that is encoded as RFC 6455 says back from the front of the bytes, its header
-- bits, opcode, mask and payload, and leaves what stands behind it. The payload is shorter than 2 ^ 64
-- bytes, the mask has four bytes or none, and the four first bits and the opcode are below 16.
pub take_frame-encode :
    (bits opcode : ℕ) (mask payload rest : List ℕ)
    → bits < 16
    → opcode < 16
    → (length mask ≡ 0) ⊎ (length mask ≡ 4)
    → length payload < 2 ^ 64
    → take_frame (encode bits opcode mask payload ++ rest)
      ≡ some (record { header = encoded_header bits opcode mask payload; payload = payload }, rest)
unfolding take_frame encode
take_frame-encode bits opcode mask payload rest hb ho hm hp =
    let l = encode_length (length payload) in
    let hl : l.0 < 128 = bits-below (length payload) in
    let e = second-byte l.0 mask hl in
    rw (append-assoc4 l.1 mask payload rest) (
      rw (sym (header_of-encode bits opcode l.0 mask payload hb ho hl)) (
        read_rest-encode (bits * 16 + opcode) (mask_bit mask * 128 + l.0) mask payload rest e.1 e.0
          hm hp))
