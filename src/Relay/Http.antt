-- ===== src/Relay/Http.antt =====
-- tools/ws_relay.py: `read_http_head` and `handle`, the relay of one connection. A socket is the list of
-- what its `recv` calls return, none of them empty, and how it ends: `recv` gives nothing, or raises, as
-- upstream does after 30 seconds of silence. The connection to upstream has been made, and the `sendall`
-- calls of `handle` itself do not fail.
pub mod Heads
pub mod Transparent
use srechat.Prelude.{
  ℕ, zero, suc, ◌-◌, Bool, true, false, not, ◌&&◌, ◌||◌, Option, none, some, List, [], ◌∷◌, ◌++◌,
  map, keep, any, Outcome, returned, raised, if◌then◌else◌, is_empty, drop, length,
}
use srechat.Text.{codes, show, lower, starts_with, contains, text_eq}
use srechat.Relay.Stream.{Line, before, pump, Ending, at_eof, recv_raised, sendall_raised}

abbrev pub blank_line : List ℕ
blank_line = codes "\r\n\r\n"

abbrev pub cut_later : ℕ → Option (List ℕ × List ℕ) → Option (List ℕ × List ℕ)
cut_later c none = none
cut_later c (some (head, rest)) = some (c ∷ head, rest)

-- `text.partition(sep)`: the text up to the first `sep` and with it, and what is behind it; none where there
-- is none.
unfoldable pub cut_after : List ℕ → List ℕ → Option (List ℕ × List ℕ)
cut_after sep [] = none
cut_after sep (c ∷ text) =
    let later = cut_later c (cut_after sep text) in
    if starts_with sep (c ∷ text) then some (sep, drop (length sep) (c ∷ text)) else later

-- What `read_http_head` returns, and what the socket has not been asked for yet.
pub record Head : Type 0 where
  pub head : List ℕ
  pub rest : List ℕ
  pub later : List (List ℕ)

abbrev pub head_or : List (List ℕ) → Option (List ℕ × List ℕ) → Outcome Head → Outcome Head
head_or chunks none more = more
head_or chunks (some (head, rest)) more =
    returned (record { head = head; rest = rest; later = chunks })

abbrev pub head_end : List ℕ → Ending → Outcome Head
head_end buf at_eof = returned (record { head = buf; rest = []; later = [] })
head_end buf (recv_raised exc) = raised exc
head_end buf (sendall_raised exc) = raised exc

unfoldable pub read_http_head : Ending → List ℕ → List (List ℕ) → Outcome Head
unfolding cut_after
read_http_head ending buf [] = head_or [] (cut_after blank_line buf) (head_end buf ending)
read_http_head ending buf (chunk ∷ chunks) =
    head_or (chunk ∷ chunks) (cut_after blank_line buf)
      (read_http_head ending (buf ++ chunk) chunks)

abbrev pub cons_first : ℕ → List (List ℕ) → List (List ℕ)
cons_first c [] = (c ∷ []) ∷ []
cons_first c (line ∷ lines) = (c ∷ line) ∷ lines

-- `text.split(sep)`; `skip` counts what is left of a separator that was met.
unfoldable pub split_from : List ℕ → ℕ → List ℕ → List (List ℕ)
split_from sep skip [] = [] ∷ []
split_from sep (suc skip) (c ∷ text) = split_from sep skip text
split_from sep zero (c ∷ text) =
    let met = starts_with sep (c ∷ text) in
    let parts = split_from sep (if met then length sep - 1 else 0) text in
    if met then [] ∷ parts else cons_first c parts

abbrev pub lines_of : List ℕ → List (List ℕ)
lines_of text = split_from (codes "\r\n") 0 text

abbrev pub first_line : List ℕ → List ℕ
first_line head = before (codes "\r\n") head

abbrev pub logged_headers : List (List ℕ)
logged_headers =
    codes "sec-websocket-key"
    ∷ codes "sec-websocket-version"
    ∷ codes "connection"
    ∷ codes "upgrade"
    ∷ codes "sec-websocket-extensions"
    ∷ codes "host"
    ∷ []

unfoldable pub is_logged_header : List ℕ → Bool
unfolding lower before
is_logged_header line =
    not (is_empty line)
    && any (λ name. text_eq name (lower (before (codes ":") line))) logged_headers

-- The source of a pump: the client for the direction to upstream.
pub data Side : Type 0 where
  client_side upstream_side : Side

-- The two pumps run at once: a turn is a `recv` of one of them with the `sendall` of what it gives, or a
-- `sendall` that raises.
pub data Turn : Type 0 where
  turn_of : Side → Turn
  breaks : Side → List ℕ → Turn

-- The chunks that were sent on in each direction, and the pump that ended first.
pub record Traffic : Type 0 where
  pub up : List (List ℕ)
  pub down : List (List ℕ)
  pub stopped : Option (Side × Ending)

abbrev pub stops : Option (Side × Ending) → Traffic
stops why = record { up = []; down = []; stopped = why }

abbrev pub add_up : List ℕ → Traffic → Traffic
add_up chunk t = record t { up = chunk ∷ t.up }

abbrev pub add_down : List ℕ → Traffic → Traffic
add_down chunk t = record t { down = chunk ∷ t.down }

-- The run of both pumps. The one that ends first shuts down both sockets, so that the other sends no more.
unfoldable pub relay : Ending → Ending → List Turn → List (List ℕ) → List (List ℕ) → Traffic
relay ce ue [] cs us = stops none
relay ce ue (turn_of client_side ∷ turns) [] us = stops (some (client_side, ce))
relay ce ue (turn_of client_side ∷ turns) (chunk ∷ cs) us = add_up chunk (relay ce ue turns cs us)
relay ce ue (turn_of upstream_side ∷ turns) cs [] = stops (some (upstream_side, ue))
relay ce ue (turn_of upstream_side ∷ turns) cs (chunk ∷ us) =
    add_down chunk (relay ce ue turns cs us)
relay ce ue (breaks side exc ∷ turns) cs us = stops (some (side, sendall_raised exc))

-- How the pump of a side ends, where `shut` is what the sockets that were shut down do to the other one; a
-- pump that still runs has logged no end.
abbrev pub ending_of : Ending → Side → Option (Side × Ending) → Ending
ending_of shut side none = at_eof
ending_of shut client_side (some (client_side, e)) = e
ending_of shut client_side (some (upstream_side, e)) = shut
ending_of shut upstream_side (some (client_side, e)) = shut
ending_of shut upstream_side (some (upstream_side, e)) = e

-- What a connection has sent to each side, the three logs, which are `handle`'s own and those of its two
-- pumps, the pump that ended first, and what comes out of `handle`.
pub record Served : Type 0 where
  pub to_upstream : List ℕ
  pub to_client : List ℕ
  pub log : List (List ℕ)
  pub client_log : List Line
  pub upstream_log : List Line
  pub stopped : Option (Side × Ending)
  pub failed : Option (List ℕ)

-- The sockets are closed with no pump having run.
abbrev pub closes : List ℕ → List ℕ → List (List ℕ) → Option (List ℕ) → Served
closes to_upstream to_client log failed = record {
  to_upstream = to_upstream;
  to_client = to_client;
  log = log;
  client_log = [];
  upstream_log = [];
  stopped = none;
  failed = failed;
}

unfoldable pub is_upgrade : List ℕ → Bool
unfolding lower contains
is_upgrade head = contains (codes "upgrade: websocket") (lower head)

-- The two pumps, behind what was sent before them; `from_client` says that the frames are parsed as those
-- of a client.
unfoldable pub pump_both : Ending → Bool → List ℕ → List ℕ → List (List ℕ) → Traffic → Served
unfolding pump
pump_both shut from_client to_upstream to_client log t =
    let up = pump from_client t.up (ending_of shut client_side t.stopped) in
    let down = pump false t.down (ending_of shut upstream_side t.stopped) in
    record {
      to_upstream = to_upstream ++ up.sent;
      to_client = to_client ++ down.sent;
      log = log;
      client_log = up.lines;
      upstream_log = down.lines;
      stopped = t.stopped;
      failed = none;
    }

-- "closed" is logged once the client's pump has ended, which any end brings about.
abbrev pub closed_lines : Option (Side × Ending) → List (List ℕ)
closed_lines none = []
closed_lines (some why) = codes "closed" ∷ []

-- `decode` is `bytes.decode(errors="replace")`.
module _ (decode : List ℕ → List ℕ) where
  -- The lines that `handle` logs of a response and of the request that it answers.
  unfoldable pub exchange_log : List ℕ → List ℕ → List (List ℕ)
  unfolding split_from is_logged_header before
  exchange_log head resp =
      (codes "RESPONSE " ++ decode (first_line resp))
      ∷ (map (λ line. codes "  < " ++ line)
            (drop 1 (keep (λ line. not (is_empty line)) (lines_of (decode resp))))
          ++ map (λ line. codes "  > " ++ line)
              (keep is_logged_header (drop 1 (lines_of (decode head)))))

  unfoldable pub is_switched : List ℕ → Bool
  unfolding before contains
  is_switched resp = contains (codes "101") (decode (first_line resp))

  module _ (shut ce ue : Ending) (turns : List Turn) where
    -- What `handle` does with the response `r` to the upgrade that `c` asks for.
    abbrev pub serve_upgrade : Head → Outcome Head → Served
    serve_upgrade c (raised exc) =
        closes (c.head ++ c.rest) [] ((codes "UPGRADE " ++ decode (first_line c.head)) ∷ [])
          (some exc)
    serve_upgrade c (returned r) =
        let log = (codes "UPGRADE " ++ decode (first_line c.head)) ∷ exchange_log c.head r.head in
        let t = relay ce ue turns c.later r.later in
        if not (is_switched r.head)
        then closes (c.head ++ c.rest) (r.head ++ r.rest)
            (log ++ codes "not an upgrade — relaying as plain HTTP" ∷ []) none
        else pump_both shut true (c.head ++ c.rest) (r.head ++ r.rest)
            (log ++ closed_lines t.stopped) t

    -- What `handle` does once the request's head is read.
    unfoldable pub serve : List (List ℕ) → Head → Served
    unfolding is_upgrade is_switched exchange_log read_http_head pump_both relay
    serve upstream c =
        if not (is_upgrade c.head)
        then pump_both shut false (c.head ++ c.rest) [] [] (relay ce ue turns c.later upstream)
        else serve_upgrade c (read_http_head ue [] upstream)

    abbrev pub unless_raised : (Head → Served) → Outcome Head → Served
    unless_raised f (raised exc) = closes [] [] [] (some exc)
    unless_raised f (returned c) = if is_empty c.head then closes [] [] [] none else f c

    unfoldable pub handle : List (List ℕ) → List (List ℕ) → Served
    unfolding serve read_http_head
    handle client upstream = unless_raised (λ c. serve upstream c) (read_http_head ce [] client)
