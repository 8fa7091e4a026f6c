-- ===== src/Relay/Stream/Wire.antt =====
-- tools/ws_relay.py: what `pump` logs of a peer that sends frames encoded as RFC 6455 says.
use srechat.Prelude.{
  ◌∙◌, ap, ◌*◌, ◌+◌, ◌/◌, ◌%◌, ◌==◌, ◌&&◌, ◌||◌, not, true, if◌then◌else◌, is_empty, keep, take,
  leb, ltb, arith, ℕ, ◌<◌, ◌^◌, ◌≡◌, ◌⊎◌, refl, sym, Bool, false, none, List, [], ◌∷◌, ◌++◌, map,
  All, length, subst,
}
use srechat.Relay.Frame.{
  Frame, take_frame, Close, not_close, no_code, close_code, close_of, Problem, rsv_set,
  unmasked_client_frame, bad_control_frame, unknown_opcode, orphan_continuation, problems_of, when,
  fragmented_after, is_known_opcode, from_bytes, unmask,
}
use Prim.Native.Nat.{bit_xor}
use srechat.Relay.Frame.RoundTrip.{encode, encoded_header, mask_bit, take_frame-encode}
use srechat.Relay.Stream.{pump, Ending, Seen, seen_of}
use srechat.Relay.Stream.Readings.{Frames, at_end, one_more, log_of, seen_lines}
use srechat.Relay.Stream.Chunks.{concat, pump-Frames}

-- A frame that a peer sends: FIN and the reserved bits, the opcode, the mask and the masked payload.
pub record Message : Type 0 where
  pub bits : ℕ
  pub opcode : ℕ
  pub mask : List ℕ
  pub payload : List ℕ

pub record IsMessage (m : Message) : Type 0 where
  pub bits : m.bits < 16
  pub opcode : m.opcode < 16
  pub mask : (length m.mask ≡ 0) ⊎ (length m.mask ≡ 4)
  pub payload : length m.payload < 2 ^ 64

unfoldable pub frame_of : Message → Frame
frame_of m = record {
  header = encoded_header m.bits m.opcode m.mask m.payload;
  payload = m.payload;
}

unfoldable pub sent_bytes : List Message → List ℕ
sent_bytes [] = []
sent_bytes (m ∷ ms) = encode m.bits m.opcode m.mask m.payload ++ sent_bytes ms

nothing_left : take_frame [] ≡ none
unfolding take_frame
nothing_left = refl

sent_bytes-Frames :
    (ms : List Message) → All IsMessage ms → Frames (sent_bytes ms) (map frame_of ms) []
unfolding sent_bytes frame_of
sent_bytes-Frames [] h = at_end nothing_left refl
sent_bytes-Frames (m ∷ ms) h =
    one_more (frame_of m) (sent_bytes ms)
      (take_frame-encode m.bits m.opcode m.mask m.payload (sent_bytes ms) h.0.bits h.0.opcode
        h.0.mask h.0.payload)
      (sent_bytes-Frames ms h.1)

-- What RFC 6455 says of these frames, from the message itself. The status of a close frame is the number in
-- its first two unmasked bytes.
abbrev pub close_status : List ℕ → List ℕ → Close
close_status mask [] = no_code
close_status mask (a ∷ []) = no_code
close_status [] (a ∷ (b ∷ payload)) = close_code (256 * a + b)
close_status (k ∷ []) (a ∷ (b ∷ payload)) = close_code (256 * bit_xor a k + bit_xor b k)
close_status (k ∷ (l ∷ mask)) (a ∷ (b ∷ payload)) = close_code (256 * bit_xor a k + bit_xor b l)

-- Whether a message breaks this rule; `is_open` says that a fragmented message is not finished.
abbrev pub breaks : Bool → Bool → Message → Problem → Bool
breaks from_client is_open m rsv_set = not (m.bits % 8 == 0)
breaks from_client is_open m unmasked_client_frame = from_client && is_empty m.mask
breaks from_client is_open m bad_control_frame =
    ltb 7 m.opcode && (ltb 125 (length m.payload) || ltb m.bits 8)
breaks from_client is_open m unknown_opcode = (ltb 2 m.opcode && ltb m.opcode 8) || ltb 10 m.opcode
breaks from_client is_open m orphan_continuation = m.opcode == 0 && not is_open

abbrev pub rules : List Problem
rules =
    rsv_set ∷ unmasked_client_frame ∷ bad_control_frame ∷ unknown_opcode ∷ orphan_continuation ∷ []

abbrev pub opens : Bool → Message → Bool
opens is_open m =
    if m.opcode == 1 || m.opcode == 2
    then ltb m.bits 8
    else is_open && not (m.opcode == 0 && ltb 7 m.bits)

abbrev pub report_of : Bool → Bool → Message → Seen
report_of from_client is_open m = record {
  header = encoded_header m.bits m.opcode m.mask m.payload;
  close = if m.opcode == 8 then close_status m.mask m.payload else not_close;
  problems = keep (breaks from_client is_open m) rules;
}

unfoldable pub reports : Bool → Bool → List Message → List Seen
reports from_client is_open [] = []
reports from_client is_open (m ∷ ms) =
    report_of from_client is_open m ∷ reports from_client (opens is_open m) ms

rsv-bits :
    (b : ℕ)
    → b < 16
    → (not (b / 4 % 2 == 0) || not (b / 2 % 2 == 0) || not (b % 2 == 0)) ≡ not (b % 8 == 0)
rsv-bits b h = ground arith

fin-bits : (b : ℕ) → b < 16 → (b / 8 == 0) ≡ ltb b 8
fin-bits b h = ground arith

mask-bit : (mask : List ℕ) → (mask_bit mask == 0) ≡ is_empty mask
mask-bit [] = refl
mask-bit (k ∷ mask) = refl

known-opcode : (o : ℕ) → o < 16 → not (is_known_opcode o) ≡ ((ltb 2 o && ltb o 8) || ltb 10 o)
unfolding is_known_opcode
known-opcode o h = ground arith

opens-frame :
    (is_open : Bool) (m : Message)
    → IsMessage m
    → fragmented_after is_open ((frame_of m).header) ≡ opens is_open m
unfolding fragmented_after frame_of
opens-frame is_open m h = ground (arith, fin-bits m.bits h.bits)

two_bytes : (a b : ℕ) (payload : List ℕ) → leb 2 (length (a ∷ (b ∷ payload))) ≡ true
two_bytes a b payload = ground arith

close_status-frame :
    (mask payload : List ℕ)
    → (if leb 2 (length payload)
        then close_code (from_bytes 0 (take 2 (unmask mask mask payload)))
        else no_code)
      ≡ close_status mask payload
unfolding from_bytes unmask
close_status-frame mask [] = refl
close_status-frame mask (a ∷ []) = refl
close_status-frame [] (a ∷ (b ∷ payload)) = rw (two_bytes a b payload) (ap close_code (omega arith))
close_status-frame (k ∷ []) (a ∷ (b ∷ payload)) =
    rw (two_bytes a b payload) (ap close_code (omega arith))
close_status-frame (k ∷ (l ∷ mask)) (a ∷ (b ∷ payload)) =
    rw (two_bytes a b payload) (ap close_code (omega arith))

close-frame :
    (m : Message)
    → close_of (frame_of m) ≡ (if m.opcode == 8 then close_status m.mask m.payload else not_close)
unfolding close_of frame_of
close-frame m =
    ap (λ (c : Close). if m.opcode == 8 then c else not_close) (close_status-frame m.mask m.payload)

when-keep :
    (p : Problem → Bool) (r s t u v : Problem)
    → when (p r) r ++ (when (p s) s ++ (when (p t) t ++ (when (p u) u ++ when (p v) v)))
      ≡ keep p (r ∷ s ∷ t ∷ u ∷ v ∷ [])
when-keep p r s t u v = ground arith

report_of-problems :
    (c is_open : Bool) (m : Message)
    → IsMessage m
    → problems_of c is_open ((frame_of m).header) ≡ keep (breaks c is_open m) rules
unfolding problems_of frame_of
report_of-problems c is_open m h =
    rw
      (
        rsv-bits m.bits h.bits,
        mask-bit m.mask,
        fin-bits m.bits h.bits,
        known-opcode m.opcode h.opcode,
        eight m.opcode,
      )
      (when-keep (breaks c is_open m) rsv_set unmasked_client_frame bad_control_frame unknown_opcode
        orphan_continuation)
  where
    eight : (o : ℕ) → leb 8 o ≡ ltb 7 o
    eight o = ground arith

frame-report_of :
    (c is_open : Bool) (m : Message)
    → IsMessage m
    → seen_of c is_open (frame_of m) ≡ report_of c is_open m
unfolding seen_of frame_of
frame-report_of c is_open m h = rw (close-frame m, report_of-problems c is_open m h) refl

log_of-reports :
    (c is_open : Bool) (ms : List Message)
    → All IsMessage ms
    → log_of c is_open (map frame_of ms) ≡ reports c is_open ms
unfolding log_of reports
log_of-reports c is_open [] h = refl
log_of-reports c is_open (m ∷ ms) h =
    ap
      (λ (s : Seen).
        s ∷ log_of c (fragmented_after is_open ((frame_of m).header)) (map frame_of ms))
      (frame-report_of c is_open m h.0)
    ∙ ap (λ (b : Bool). report_of c is_open m ∷ log_of c b (map frame_of ms))
        (opens-frame is_open m h.0)
    ∙ ap (λ (l : List Seen). report_of c is_open m ∷ l) (log_of-reports c (opens is_open m) ms h.1)

-- If a peer sends frames that are encoded as RFC 6455 says, `pump` logs these frames in order, however
-- `recv` cuts the bytes and however it ends: each with its header bits, opcode, mask and length, with the
-- status code of a close frame, and with the rules that it breaks, which are a reserved bit, no mask of
-- the client, a control frame that is long or not final, an unknown opcode, and a continuation of nothing.
pub pump-sent_bytes :
    (c : Bool) (ms : List Message) (chunks : List (List ℕ)) (e : Ending)
    → All IsMessage ms
    → concat chunks ≡ sent_bytes ms
    → seen_lines ((pump c chunks e).lines) ≡ reports c false ms
pump-sent_bytes c ms chunks e h same =
    pump-Frames c chunks e (map frame_of ms) []
      (subst (λ t. Frames t (map frame_of ms) []) (sym same) (sent_bytes-Frames ms h))
    ∙ log_of-reports c false ms h
