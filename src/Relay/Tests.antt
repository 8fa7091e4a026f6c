-- ===== src/Relay/Tests.antt =====
-- Runs of the relay, and its theorems at concrete inputs.
use srechat.Prelude.{
  ℕ, ◌≡◌, refl, true, false, some, List, [], ◌∷◌, ◌++◌, map, inl, inr, arith, append-nil,
}
use srechat.Text.{codes, starts_with, show, join, text_eq}
use srechat.Relay.Frame.{take_frame, unmask, not_close}
use srechat.Relay.Frame.RoundTrip.{encode, encoded_header, take_frame-encode}
use srechat.Relay.Stream.{pump, line_text, frame_line, at_eof, recv_raised}
use srechat.Relay.Stream.Readings.{seen_lines}
use srechat.Relay.Stream.Chunks.{concat, pump-chunks}
use srechat.Relay.Stream.Wire.{Message, sent_bytes, reports, pump-sent_bytes}
use srechat.Relay.Http.{handle, Served, Turn, turn_of, client_side, upstream_side}
use srechat.Relay.Http.Transparent.{Transparent}

abbrev ascii : List ℕ → List ℕ
ascii bytes = bytes

abbrev key : List ℕ
key = 17 ∷ 34 ∷ 51 ∷ 68 ∷ []

take_frame-encode_example :
    take_frame (encode 8 1 key (codes "hello") ++ codes "next")
    ≡ some (
      record { header = encoded_header 8 1 key (codes "hello"); payload = codes "hello" },
      codes "next",
    )
take_frame-encode_example =
    take_frame-encode 8 1 key (codes "hello") (codes "next") (omega arith) (omega arith) (inr refl)
      (omega arith)

-- A ping of the server, cut within its header and within its payload.
abbrev pieces : List (List ℕ)
pieces = (137 ∷ []) ∷ (4 ∷ codes "be") ∷ codes "at" ∷ []

abbrev whole : List (List ℕ)
whole = (137 ∷ (4 ∷ codes "beat")) ∷ []

pump-chunks_example :
    seen_lines ((pump false pieces at_eof).lines)
    ≡ seen_lines ((pump false whole (recv_raised (codes "timed out"))).lines)
pump-chunks_example =
    pump-chunks false pieces whole at_eof (recv_raised (codes "timed out")) (unfold concat in refl)

-- A close frame of the client with the masked status code 1000, and a text frame with no mask.
abbrev goodbye : Message
goodbye = record { bits = 8; opcode = 8; mask = key; payload = unmask key key (3 ∷ 232 ∷ []) }

abbrev bare : Message
bare = record { bits = 12; opcode = 1; mask = []; payload = codes "x" }

texts :
    map
      (line_text ascii)
      ((pump true (sent_bytes (bare ∷ goodbye ∷ []) ∷ []) (recv_raised (codes "timed out"))).lines)
    ≡ codes "text   fin=1 rsv=100 masked=0 len=1  <<< RSV_SET,UNMASKED_CLIENT_FRAME"
      ∷ codes "close  fin=1 rsv=000 masked=1 len=2 close_code=1000"
      ∷ codes "pump ended: timed out"
      ∷ []
unfolding pump line_text sent_bytes encode unmask starts_with show join
texts = refl

pump-sent_bytes_example :
    seen_lines ((pump true (sent_bytes (bare ∷ goodbye ∷ []) ∷ []) at_eof).lines)
    ≡ reports true false (bare ∷ goodbye ∷ [])
unfolding unmask concat
pump-sent_bytes_example =
    pump-sent_bytes true (bare ∷ goodbye ∷ []) (sent_bytes (bare ∷ goodbye ∷ []) ∷ []) at_eof
      (
        record { bits = omega arith; opcode = omega arith; mask = inl refl; payload = omega arith },
        (
          record {
            bits = omega arith;
            opcode = omega arith;
            mask = inr refl;
            payload = omega arith;
          },
          tt,
        ),
      )
      (append-nil _)

abbrev request : List ℕ
request = codes "GET /socket HTTP/1.1\r\nUpgrade: websocket\r\nCookie: secret\r\n\r\n"

abbrev response : List ℕ
response = codes "HTTP/1.1 101 Switching Protocols\r\n\r\n"

-- The client and upstream take turns, and a pump that is shut down finds nothing more to read.
abbrev handled : List Turn → List (List ℕ) → List (List ℕ) → Served
handled turns client upstream = handle ascii at_eof at_eof at_eof turns client upstream

abbrev client_turn : Turn
client_turn = turn_of client_side

abbrev upstream_turn : Turn
upstream_turn = turn_of upstream_side

-- A frame that comes with the response's head is sent on, and is not logged.
lost_frame :
    (handled (upstream_turn ∷ []) (request ∷ []) ((response ++ encode 8 9 [] []) ∷ [])).upstream_log
    ≡ []
unfolding handle encode
lost_frame = refl

next_frame :
    (handled (upstream_turn ∷ []) (request ∷ []) (response ∷ encode 8 9 [] [] ∷ [])).upstream_log
    ≡ frame_line (record { header = encoded_header 8 9 [] []; close = not_close; problems = [] })
      ∷ []
unfolding handle encode
next_frame = refl

log_lines :
    (handled (client_turn ∷ []) (request ∷ []) (response ∷ [])).log
    ≡ codes "UPGRADE GET /socket HTTP/1.1"
      ∷ codes "RESPONSE HTTP/1.1 101 Switching Protocols"
      ∷ codes "  > Upgrade: websocket"
      ∷ codes "closed"
      ∷ []
unfolding handle text_eq
log_lines = refl

abbrev plain_request : List ℕ
plain_request = codes "GET / HTTP/1.1\r\n\r\n"

-- A client that stops sending before the answer has come gets none of it, since the end of one pump shuts
-- both sockets down.
half_closed :
    (handled
      (client_turn ∷ upstream_turn ∷ [])
      (plain_request ∷ [])
      (codes "answer" ∷ [])).to_client
    ≡ []
unfolding handle
half_closed = refl

-- Upstream is silent for too long before it answers an upgrade: the exception comes out of `handle`.
silent_upstream :
    (handle ascii at_eof at_eof (recv_raised (codes "timed out")) [] (request ∷ []) []).failed
    ≡ some (codes "timed out")
unfolding handle
silent_upstream = refl
