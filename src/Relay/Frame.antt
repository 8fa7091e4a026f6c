-- ===== src/Relay/Frame.antt =====
-- tools/ws_relay.py: one round of `parse_frames`, up to the frame that it consumes.
pub mod RoundTrip
pub mod More
use srechat.Prelude.{
  ℕ, zero, suc, ◌+◌, ◌*◌, ◌/◌, ◌%◌, Bool, true, false, not, ◌&&◌, ◌||◌, Option, none, some, List,
  [], ◌∷◌, ◌++◌, ltb, leb, ◌==◌, if◌then◌else◌, length, take, drop, is_empty,
}
use Prim.Native.Nat.{bit_xor}

-- The bits of the first two bytes, and the bytes of the mask, which are none where `masked` is 0.
pub record Header : Type 0 where
  pub fin : ℕ
  pub rsv1 : ℕ
  pub rsv2 : ℕ
  pub rsv3 : ℕ
  pub opcode : ℕ
  pub masked : ℕ
  pub len : ℕ
  pub mask : List ℕ

-- A frame as it is on the wire: the payload is still masked.
pub record Frame : Type 0 where
  pub header : Header
  pub payload : List ℕ

-- `int.from_bytes(bytes, "big")`, going on from what was read.
unfoldable pub from_bytes : ℕ → List ℕ → ℕ
from_bytes acc [] = acc
from_bytes acc (b ∷ bytes) = from_bytes (acc * 256 + b) bytes

-- A reading from the front of the buffer: what it read and what is behind it, none while a part is
-- missing. `and_then` reads on behind what was read.
abbrev pub Reader : Type 0 → Type 0
Reader A = List ℕ → Option (A × List ℕ)

abbrev pub and_then : {A B : Type 0} → Option (A × List ℕ) → (A → Reader B) → Option (B × List ℕ)
and_then none f = none
and_then (some (a, bytes)) f = f a bytes

abbrev pub next_byte : Reader ℕ
next_byte [] = none
next_byte (b ∷ bytes) = some (b, bytes)

abbrev pub done : {A : Type 0} → A → Reader A
done a bytes = some (a, bytes)

unfoldable pub split_at : ℕ → Reader (List ℕ)
split_at zero bytes = done [] bytes
split_at (suc n) bytes =
    and_then (next_byte bytes) (λ b. λ rest. and_then (split_at n rest) (λ bs. done (b ∷ bs)))

-- The length: the seven bits themselves, or the big-endian number in the next 2 or 8 bytes.
unfoldable pub read_number : ℕ → Reader ℕ
unfolding split_at from_bytes
read_number n bytes = and_then (split_at n bytes) (λ bs. done (from_bytes 0 bs))

unfoldable pub read_length : ℕ → Reader ℕ
unfolding read_number
read_length bits =
    if bits == 126 then read_number 2 else if bits == 127 then read_number 8 else done bits

unfoldable pub read_mask : ℕ → Reader (List ℕ)
unfolding split_at
read_mask masked = if masked == 0 then done [] else split_at 4

-- `b >> k & 1` is `b / 2 ^ k % 2`; a byte has no bits above the highest.
abbrev pub header_of : ℕ → ℕ → ℕ → List ℕ → Header
header_of b0 b1 len mask = record {
  fin = b0 / 128;
  rsv1 = b0 / 64 % 2;
  rsv2 = b0 / 32 % 2;
  rsv3 = b0 / 16 % 2;
  opcode = b0 % 16;
  masked = b1 / 128;
  len = len;
  mask = mask;
}

-- The frame at the front of the buffer, and its parts from the payload and the mask on.
unfoldable pub read_payload : ℕ → ℕ → ℕ → List ℕ → Reader Frame
unfolding split_at
read_payload b0 b1 len mask bytes =
    and_then (split_at len bytes)
      (λ payload. done (record { header = header_of b0 b1 len mask; payload = payload }))

unfoldable pub read_masked : ℕ → ℕ → ℕ → Reader Frame
unfolding read_mask read_payload
read_masked b0 b1 len bytes =
    and_then (read_mask (b1 / 128) bytes) (λ mask. read_payload b0 b1 len mask)

unfoldable pub read_rest : ℕ → ℕ → Reader Frame
unfolding read_length read_masked
read_rest b0 b1 bytes = and_then (read_length (b1 % 128) bytes) (λ len. read_masked b0 b1 len)

unfoldable pub take_frame : Reader Frame
unfolding read_rest
take_frame bytes =
    and_then (next_byte bytes) (λ b0. λ rest. and_then (next_byte rest) (λ b1. read_rest b0 b1))

-- `bytes(b ^ mask[i % 4] for i, b in enumerate(payload))`: `left` is what the mask has left.
unfoldable pub unmask : List ℕ → List ℕ → List ℕ → List ℕ
unmask mask left [] = []
unmask [] left (b ∷ payload) = b ∷ unmask [] left payload
unmask (m ∷ mask) [] (b ∷ payload) = bit_xor b m ∷ unmask (m ∷ mask) mask payload
unmask (m ∷ mask) (k ∷ left) (b ∷ payload) = bit_xor b k ∷ unmask (m ∷ mask) left payload

-- What a close frame says: no code, or the big-endian number in its first two bytes.
pub data Close : Type 0 where
  not_close : Close
  no_code : Close
  close_code : ℕ → Close

unfoldable pub close_of : Frame → Close
unfolding unmask from_bytes
close_of f =
    let h = f.header in
    let body = unmask h.mask h.mask f.payload in
    if h.opcode == 8
    then (if leb 2 h.len then close_code (from_bytes 0 (take 2 body)) else no_code)
    else not_close

pub data Problem : Type 0 where
  rsv_set unmasked_client_frame bad_control_frame unknown_opcode orphan_continuation : Problem

-- `opcode in OPCODES`.
unfoldable pub is_known_opcode : ℕ → Bool
is_known_opcode op = op == 0 || op == 1 || op == 2 || op == 8 || op == 9 || op == 10

abbrev pub when : Bool → Problem → List Problem
when b p = if b then p ∷ [] else []

-- `fragmented` says that a text or binary message has begun and not ended.
unfoldable pub problems_of : Bool → Bool → Header → List Problem
unfolding is_known_opcode
problems_of from_client fragmented h =
    when (not (h.rsv1 == 0) || not (h.rsv2 == 0) || not (h.rsv3 == 0)) rsv_set
    ++ (when (from_client && h.masked == 0) unmasked_client_frame
        ++ (when (leb 8 h.opcode && (ltb 125 h.len || h.fin == 0)) bad_control_frame
            ++ (when (not (is_known_opcode h.opcode)) unknown_opcode
                ++ when (h.opcode == 0 && not fragmented) orphan_continuation)))

unfoldable pub fragmented_after : Bool → Header → Bool
fragmented_after fragmented h =
    if h.opcode == 1 || h.opcode == 2
    then h.fin == 0
    else if h.opcode == 0 && not (h.fin == 0)
    then false
    else fragmented
