-- ===== src/Relay/Stream/Chunks.antt =====
-- tools/ws_relay.py: where TCP cuts a stream of bytes makes no difference to the frames that `pump_loop` logs.
use mathlib.Core.List.{append_assoc}
use srechat.Prelude.{
  ℕ, ◌≡◌, refl, sym, ap, ◌∙◌, Bool, false, none, List, [], ◌∷◌, ◌++◌, arith, length, subst,
  append-nil,
}
use srechat.Relay.Frame.{Frame, take_frame}
use srechat.Relay.Stream.{
  State, Line, pump_ended, parse_frames, pump_loop, new_state, pump, Ending, at_eof, recv_raised,
  sendall_raised, ending_lines,
}
use srechat.Relay.Stream.Readings.{
  Frames, at_end, log_of, seen_lines, seen_lines-append, log_of-append, Frames-append, Frames-end,
  Frames-unique, Parses, parse_loop-Parses,
}

-- All the bytes of a stream.
unfoldable pub concat : List (List ℕ) → List ℕ
concat [] = []
concat (chunk ∷ chunks) = chunk ++ concat chunks

-- The frames that the chunks hold, behind what is left of the chunks before, and their log.
record Pumps (c : Bool) (chunks : List (List ℕ)) (buf : List ℕ) (s : State) : Type 0 where
  frames : List Frame
  left : List ℕ
  read : Frames (buf ++ concat chunks) frames left
  logged : seen_lines ((pump_loop c chunks buf s).1) ≡ log_of c s.fragmented frames

pump_loop-Pumps :
    (c : Bool) (chunks : List (List ℕ)) (buf : List ℕ) (s : State)
    → take_frame buf ≡ none
    → Pumps c chunks buf s
unfolding pump_loop concat seen_lines log_of
pump_loop-Pumps c [] buf s h = record {
  frames = [];
  left = buf;
  read = at_end (rw (append-nil buf) h) (sym (append-nil buf));
  logged = refl;
}
pump_loop-Pumps c (chunk ∷ chunks) buf s h =
    let p = parse_frames c (buf ++ chunk) s in
    let parses : Parses c (buf ++ chunk) s p =
      unfold parse_frames in
      parse_loop-Parses (length (buf ++ chunk)) c (buf ++ chunk) s (omega arith) in
    let ih =
      pump_loop-Pumps c chunks p.rest p.state
        (Frames-end (buf ++ chunk) p.rest parses.frames parses.read) in
    record {
      frames = parses.frames ++ ih.frames;
      left = ih.left;
      read =
          subst (λ t. Frames t (parses.frames ++ ih.frames) ih.left)
            (append_assoc buf chunk (concat chunks))
            (Frames-append (buf ++ chunk) p.rest ih.left (concat chunks) parses.frames ih.frames
              parses.read ih.read);
      logged =
          seen_lines-append p.lines ((pump_loop c chunks p.rest p.state).1)
          ∙ ap (λ t. t ++ seen_lines ((pump_loop c chunks p.rest p.state).1)) parses.logged
          ∙ ap (λ t. log_of c s.fragmented parses.frames ++ t) ih.logged
          ∙ ap (λ b. log_of c s.fragmented parses.frames ++ log_of c b ih.frames) parses.fragmented
          ∙ sym (log_of-append c s.fragmented parses.frames ih.frames);
    }

-- The end of `pump` logs no frame.
ending-silent :
    (lines : List Line) (e : Ending) → seen_lines (lines ++ ending_lines e) ≡ seen_lines lines
unfolding seen_lines
ending-silent lines at_eof = ap seen_lines (append-nil lines)
ending-silent lines (recv_raised exc) =
    seen_lines-append lines (pump_ended exc ∷ []) ∙ append-nil (seen_lines lines)
ending-silent lines (sendall_raised exc) =
    seen_lines-append lines (pump_ended exc ∷ []) ∙ append-nil (seen_lines lines)

-- If the bytes that a socket gives hold these whole frames, `pump` logs just these frames, in their order
-- and with the problems that each has where it stands, however `recv` cuts the bytes into chunks.
pub pump-Frames :
    (c : Bool) (chunks : List (List ℕ)) (e : Ending) (fs : List Frame) (left : List ℕ)
    → Frames (concat chunks) fs left
    → seen_lines ((pump c chunks e).lines) ≡ log_of c false fs
unfolding pump
pump-Frames c chunks e fs left h =
    let p = pump_loop-Pumps c chunks [] new_state (unfold take_frame in refl) in
    ending-silent ((pump_loop c chunks [] new_state).1) e
    ∙ p.logged
    ∙ ap (log_of c false) (Frames-unique (concat chunks) p.left left p.frames fs p.read h)

-- Two ways to cut the same bytes into chunks make `pump` log the same frames, however it ends.
pub pump-chunks :
    (c : Bool) (chunks others : List (List ℕ)) (e f : Ending)
    → concat chunks ≡ concat others
    → seen_lines ((pump c chunks e).lines) ≡ seen_lines ((pump c others f).lines)
pump-chunks c chunks others e f same =
    let p = pump_loop-Pumps c others [] new_state (unfold take_frame in refl) in
    pump-Frames c chunks e p.frames p.left (subst (λ t. Frames t p.frames p.left) (sym same) p.read)
    ∙ sym (pump-Frames c others f p.frames p.left p.read)

-- `pump_loop` sends on every byte that it receives, in order, whatever they say.
pub pump_loop-sent :
    (c : Bool) (chunks : List (List ℕ)) (buf : List ℕ) (s : State)
    → (pump_loop c chunks buf s).0 ≡ concat chunks
unfolding pump_loop concat
pump_loop-sent c [] buf s = refl
pump_loop-sent c (chunk ∷ chunks) buf s =
    let p = parse_frames c (buf ++ chunk) s in
    ap (λ t. chunk ++ t) (pump_loop-sent c chunks p.rest p.state)
