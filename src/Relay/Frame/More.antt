-- ===== src/Relay/Frame/More.antt =====
-- tools/ws_relay.py: a frame that is read stays the same when more bytes come behind it.
use srechat.Prelude.{
  ℕ, zero, suc, ◌/◌, ◌%◌, ◌≤◌, ◌<◌, ◌≡◌, Bool, true, false, some, List, [], ◌∷◌, ◌++◌, arith, ◌==◌,
  if◌then◌else◌, length, Option-cases, inl, inr,
}
use srechat.Relay.Frame.{
  Frame, Reader, from_bytes, split_at, and_then, next_byte, done, read_number, read_length,
  read_mask, read_payload, read_masked, read_rest, take_frame,
}

-- What is read does not change when more bytes come, and it leaves no more bytes than there were.
record Reads {A : Type 0} (read : Reader A) : Type 0 where
  pub more :
      (bytes rest tail : List ℕ) (a : A)
      → read bytes ≡ some (a, rest)
      → read (bytes ++ tail) ≡ some (a, rest ++ tail)
  pub shorter :
      (bytes rest : List ℕ) (a : A) → read bytes ≡ some (a, rest) → length rest ≤ length bytes

done-Reads : {A : Type 0} (a : A) → Reads (done a)
done-Reads a = record {
  more = λ bytes rest tail b h. ground (arith, h);
  shorter = λ bytes rest b h. ground (arith, h);
}

next_byte-more :
    (bytes rest tail : List ℕ) (a : ℕ)
    → next_byte bytes ≡ some (a, rest)
    → next_byte (bytes ++ tail) ≡ some (a, rest ++ tail)
next_byte-more [] rest tail a h = cc
next_byte-more (b ∷ bytes) rest tail a h = ground (arith, h)

next_byte-shorter :
    (bytes rest : List ℕ) (a : ℕ) → next_byte bytes ≡ some (a, rest) → length rest < length bytes
next_byte-shorter [] rest a h = cc
next_byte-shorter (b ∷ bytes) rest a h = ground (arith, h)

module _ {A B : Type 0} (read : Reader A) (f : A → Reader B) where
  abbrev both : Reader B
  both bytes = and_then (read bytes) f

  both-more :
      Reads read
      → ((a : A) → Reads (f a))
      → (bytes rest tail : List ℕ) (b : B) → both bytes ≡ some (b, rest)
      → both (bytes ++ tail) ≡ some (b, rest ++ tail)
  both-more r g bytes rest tail b h = elim (Option-cases (read bytes)) [
    | inl e ↦ cc (rw e at h)
    | inr ((a, mid), e) ↦ rw (r.more bytes mid tail a e) ((g a).more mid rest tail b (rw e at h))
  ]

  both-Reads : Reads read → ((a : A) → Reads (f a)) → Reads both
  both-Reads r g = record {
    more = both-more r g;
    shorter = λ bytes rest b h. elim (Option-cases (read bytes)) [
      | inl e ↦ cc (rw e at h)
      | inr ((a, mid), e) ↦
          omega (arith, r.shorter bytes mid a e, (g a).shorter mid rest b (rw e at h))
    ];
  }

next_byte-Reads : Reads next_byte
next_byte-Reads = record {
  more = next_byte-more;
  shorter = λ bytes rest a h. omega (arith, next_byte-shorter bytes rest a h);
}

split_at-Reads : (n : ℕ) → Reads (split_at n)
unfolding split_at
split_at-Reads zero = done-Reads []
split_at-Reads (suc n) =
    both-Reads next_byte (λ b. λ rest. and_then (split_at n rest) (λ bs. done (b ∷ bs)))
      next_byte-Reads
      (λ b.
        both-Reads (split_at n) (λ bs. done (b ∷ bs)) (split_at-Reads n)
          (λ bs. done-Reads (b ∷ bs)))

read_number-Reads : (n : ℕ) → Reads (read_number n)
unfolding read_number
read_number-Reads n =
    both-Reads (split_at n) (λ bs. done (from_bytes 0 bs)) (split_at-Reads n)
      (λ bs. done-Reads (from_bytes 0 bs))

if-Reads : {A : Type 0} (b : Bool) (x y : Reader A) → Reads x → Reads y → Reads (if b then x else y)
if-Reads true x y hx hy = hx
if-Reads false x y hx hy = hy

read_length-Reads : (bits : ℕ) → Reads (read_length bits)
unfolding read_length
read_length-Reads bits =
    if-Reads (bits == 126) (read_number 2) (if bits == 127 then read_number 8 else done bits)
      (read_number-Reads 2)
      (if-Reads (bits == 127) (read_number 8) (done bits) (read_number-Reads 8) (done-Reads bits))

read_mask-Reads : (masked : ℕ) → Reads (read_mask masked)
unfolding read_mask
read_mask-Reads masked =
    if-Reads (masked == 0) (done []) (split_at 4) (done-Reads []) (split_at-Reads 4)

read_rest-Reads : (b0 b1 : ℕ) → Reads (read_rest b0 b1)
unfolding read_rest read_masked read_payload
read_rest-Reads b0 b1 = both-Reads (read_length (b1 % 128)) _ (read_length-Reads (b1 % 128)) λ len.
    both-Reads (read_mask (b1 / 128)) _ (read_mask-Reads (b1 / 128))
      λ mask. both-Reads (split_at len) _ (split_at-Reads len) λ payload. done-Reads _

take_frame-Reads : Reads take_frame
unfolding take_frame
take_frame-Reads =
    both-Reads next_byte _ next_byte-Reads
      λ b0. both-Reads next_byte _ next_byte-Reads λ b1. read_rest-Reads b0 b1

-- A frame that is read is read as well where more bytes come behind it, and they stay behind.
pub take_frame-append :
    (bytes rest tail : List ℕ) (f : Frame)
    → take_frame bytes ≡ some (f, rest)
    → take_frame (bytes ++ tail) ≡ some (f, rest ++ tail)
take_frame-append bytes rest tail f h = take_frame-Reads.more bytes rest tail f h

pub take_frame-shorter :
    (bytes rest : List ℕ) (f : Frame)
    → take_frame bytes ≡ some (f, rest)
    → length rest < length bytes
unfolding take_frame
take_frame-shorter bytes rest f h = elim (Option-cases (next_byte bytes)) [
  | inl e ↦ cc (rw e at h)
  | inr ((b0, mid), e) ↦ omega (
    arith,
    next_byte-shorter bytes mid b0 e,
    (both-Reads next_byte _ next_byte-Reads (λ b1. read_rest-Reads b0 b1)).shorter mid rest f
        (rw e at h),
  )
]
