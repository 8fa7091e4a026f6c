-- ===== src/Relay/Stream.antt =====
-- tools/ws_relay.py: `parse_frames` and `pump`. A log line is a value; `line_text` is its text.
pub mod Readings
pub mod Chunks
pub mod Wire
use srechat.Prelude.{
  ℕ, zero, suc, Bool, true, false, not, ◌&&◌, ◌||◌, Option, none, some, List, [], ◌∷◌, ◌++◌, ltb,
  leb, ◌==◌, map, if◌then◌else◌, length, take, is_empty, any,
}
use srechat.Text.{codes, show, join, starts_with}
use srechat.Relay.Frame.{
  Frame, Header, take_frame, Close, not_close, no_code, close_code, close_of, Problem, rsv_set,
  unmasked_client_frame, bad_control_frame, unknown_opcode, orphan_continuation, problems_of,
  fragmented_after, is_known_opcode,
}

-- The dict `state` of one direction; what is absent is false.
pub record State : Type 0 where
  pub http_reported : Bool
  pub fragmented : Bool

-- What is logged of a frame.
pub record Seen : Type 0 where
  pub header : Header
  pub close : Close
  pub problems : List Problem

pub data Line : Type 0 where
  http_request : List ℕ → Line
  frame_line : Seen → Line
  pump_ended : List ℕ → Line

abbrev pub verbs : List (List ℕ)
verbs = codes "GET " ∷ codes "POST " ∷ codes "PUT " ∷ codes "HEAD " ∷ codes "OPTIONS " ∷ []

-- `text.split(sep, 1)[0]`.
unfoldable pub before : List ℕ → List ℕ → List ℕ
before sep [] = []
before sep (c ∷ text) =
    let rest = c ∷ before sep text in if starts_with sep (c ∷ text) then [] else rest

-- An HTTP request where frames should be, told once for a direction.
unfoldable pub report_http : List ℕ → State → State × List Line
unfolding before
report_http buf s =
    if not s.http_reported && any (λ verb. starts_with verb buf) verbs
    then (record s { http_reported = true }, http_request (before (codes "\r\n") buf) ∷ [])
    else (s, [])

unfoldable pub seen_of : Bool → Bool → Frame → Seen
unfolding close_of problems_of
seen_of from_client fragmented f = record {
  header = f.header;
  close = close_of f;
  problems = problems_of from_client fragmented f.header;
}

-- What `parse_frames` gives back: the bytes that are left, the state and the log.
pub record Parsed : Type 0 where
  pub rest : List ℕ
  pub state : State
  pub lines : List Line

abbrev pub add_lines : List Line → Parsed → Parsed
add_lines said p = record p { lines = said ++ p.lines }

abbrev pub after_frame : Frame → State → State
after_frame f s = record s { fragmented = fragmented_after s.fragmented f.header }

-- The end of a round, on the frame that it found; `go_on` is the next round.
abbrev pub round_end :
    Bool → (List ℕ → State → Parsed) → List ℕ → State → Option (Frame × List ℕ) → Parsed
round_end from_client go_on buf s none = record { rest = buf; state = s; lines = [] }
round_end from_client go_on buf s (some (f, rest)) =
    add_lines (frame_line (seen_of from_client s.fragmented f) ∷ []) (go_on rest (after_frame f s))

-- The loop of `parse_frames`. A round takes two bytes at least, so `length buf` rounds are enough.
unfoldable pub parse_loop : ℕ → Bool → List ℕ → State → Parsed
unfolding take_frame report_http seen_of fragmented_after
parse_loop zero from_client buf s = record { rest = buf; state = s; lines = [] }
parse_loop (suc fuel) from_client buf s =
    let (s', said) = report_http buf s in
    let parsed =
      round_end from_client (λ rest t. parse_loop fuel from_client rest t) buf s'
        (take_frame buf) in
    if ltb (length buf) 2
    then record { rest = buf; state = s; lines = [] }
    else add_lines said parsed

-- `from_client` is `direction == "C->S"`.
unfoldable pub parse_frames : Bool → List ℕ → State → Parsed
unfolding parse_loop
parse_frames from_client buf s = parse_loop (length buf) from_client buf s

-- The loop of `pump` over the chunks that `recv` gives, from the bytes that are left: what it sends on
-- and what it logs. It ends where the socket does.
unfoldable pub pump_loop : Bool → List (List ℕ) → List ℕ → State → List ℕ × List Line
unfolding parse_frames
pump_loop from_client [] buf s = ([], [])
pump_loop from_client (chunk ∷ chunks) buf s =
    let p = parse_frames from_client (buf ++ chunk) s in
    let (sent, lines) = pump_loop from_client chunks p.rest p.state in
    (chunk ++ sent, p.lines ++ lines)

abbrev pub new_state : State
new_state = record { http_reported = false; fragmented = false }

-- How `pump` ends: `recv` gives nothing, or raises, or the `sendall` of the chunk that came last does.
pub data Ending : Type 0 where
  at_eof : Ending
  recv_raised : List ℕ → Ending
  sendall_raised : List ℕ → Ending

abbrev pub ending_lines : Ending → List Line
ending_lines at_eof = []
ending_lines (recv_raised exc) = pump_ended exc ∷ []
ending_lines (sendall_raised exc) = pump_ended exc ∷ []

pub data Socket : Type 0 where
  src dst : Socket

-- What `pump` has sent on and logged, and the sockets that it shuts down for both directions.
pub record Pumped : Type 0 where
  pub sent : List ℕ
  pub lines : List Line
  pub shut_down : List Socket

-- `pump`, on the chunks that were received and sent on. A chunk whose `sendall` raises is not among them:
-- it is not parsed, and how much of it was sent is not known.
unfoldable pub pump : Bool → List (List ℕ) → Ending → Pumped
unfolding pump_loop
pump from_client chunks ending =
    let (sent, lines) = pump_loop from_client chunks [] new_state in
    record { sent = sent; lines = lines ++ ending_lines ending; shut_down = src ∷ dst ∷ [] }

-- `OPCODES.get(opcode, f"?{opcode}")`, and its text in six columns.
unfoldable pub opcode_name : ℕ → List ℕ
opcode_name op =
    if op == 0
    then codes "cont"
    else if op == 1
    then codes "text"
    else if op == 2
    then codes "binary"
    else if op == 8
    then codes "close"
    else if op == 9
    then codes "ping"
    else if op == 10
    then codes "pong"
    else codes "?" ++ show op

abbrev pub pad : ℕ → List ℕ → List ℕ
pad zero text = text
pad (suc n) [] = b' ' ∷ pad n []
pad (suc n) (c ∷ text) = c ∷ pad n text

abbrev pub problem_text : Problem → List ℕ
problem_text rsv_set = codes "RSV_SET"
problem_text unmasked_client_frame = codes "UNMASKED_CLIENT_FRAME"
problem_text bad_control_frame = codes "BAD_CONTROL_FRAME"
problem_text unknown_opcode = codes "UNKNOWN_OPCODE"
problem_text orphan_continuation = codes "ORPHAN_CONTINUATION"

abbrev pub close_text : ℕ → Close → List ℕ
close_text len not_close = []
close_text len no_code = codes " close_code=(none,len=" ++ (show len ++ codes ")")
close_text len (close_code n) = codes " close_code=" ++ show n

-- The text of a line, behind the connection and the direction; `decode` is `bytes.decode(errors="replace")`.
unfoldable pub line_text : (List ℕ → List ℕ) → Line → List ℕ
unfolding opcode_name
line_text decode (http_request line) =
    codes "!! HTTP REQUEST ON UPGRADED SOCKET: " ++ take 120 (decode line)
line_text decode (pump_ended exc) = codes "pump ended: " ++ exc
line_text decode (frame_line s) =
    let h = s.header in
    pad 6 (opcode_name h.opcode)
    ++ (codes " fin="
        ++ (show h.fin
            ++ (codes " rsv="
                ++ (show h.rsv1
                    ++ (show h.rsv2
                        ++ (show h.rsv3
                            ++ (codes " masked="
                                ++ (show h.masked
                                    ++ (codes " len="
                                        ++ (show h.len
                                            ++ (close_text h.len s.close
                                                ++ (if is_empty s.problems
                                                    then []
                                                    else codes "  <<< "
                                                      ++ join (codes ",")
                                                          (map problem_text s.problems)))))))))))))
