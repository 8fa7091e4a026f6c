-- ===== src/Relay/Stream/Readings.antt =====
-- tools/ws_relay.py: the frames that a stream of bytes holds, and what is logged of them.
use srechat.Prelude.{
  ℕ, zero, suc, ◌≤◌, ◌≡◌, refl, ap, ◌∙◌, Bool, true, Option, none, some, List, [], ◌∷◌, ◌++◌, arith,
  ltb, length, subst, Bool-cases, Option-cases, inl, inr,
}
use srechat.Relay.Frame.{Frame, take_frame, fragmented_after}
use srechat.Relay.Frame.More.{take_frame-append, take_frame-shorter}
use srechat.Relay.Stream.{
  State, Seen, Line, http_request, frame_line, pump_ended, report_http, seen_of, Parsed, add_lines,
  after_frame, round_end, parse_loop,
}

-- The bytes hold these whole frames, and behind them `left`, which has no whole frame.
pub data Frames : List ℕ → List Frame → List ℕ → Type 0 where
  at_end : {bytes left : List ℕ} → take_frame bytes ≡ none → left ≡ bytes → Frames bytes [] left
  one_more :
      {bytes left : List ℕ} {fs : List Frame} (f : Frame) (rest : List ℕ)
      → take_frame bytes ≡ some (f, rest)
      → Frames rest fs left
      → Frames bytes (f ∷ fs) left

-- What is to be logged of the frames, and whether a message is then unfinished.
unfoldable pub log_of : Bool → Bool → List Frame → List Seen
log_of from_client fragmented [] = []
log_of from_client fragmented (f ∷ fs) =
    seen_of from_client fragmented f ∷ log_of from_client (fragmented_after fragmented f.header) fs

unfoldable pub unfinished : Bool → List Frame → Bool
unfinished fragmented [] = fragmented
unfinished fragmented (f ∷ fs) = unfinished (fragmented_after fragmented f.header) fs

-- The frame lines of a log.
unfoldable pub seen_lines : List Line → List Seen
seen_lines [] = []
seen_lines (http_request text ∷ lines) = seen_lines lines
seen_lines (pump_ended exc ∷ lines) = seen_lines lines
seen_lines (frame_line s ∷ lines) = s ∷ seen_lines lines

pub seen_lines-append : (xs ys : List Line) → seen_lines (xs ++ ys) ≡ seen_lines xs ++ seen_lines ys
unfolding seen_lines
seen_lines-append [] ys = refl
seen_lines-append (http_request text ∷ xs) ys = seen_lines-append xs ys
seen_lines-append (pump_ended exc ∷ xs) ys = seen_lines-append xs ys
seen_lines-append (frame_line s ∷ xs) ys = ap (λ t. s ∷ t) (seen_lines-append xs ys)

pub log_of-append :
    (c frag : Bool) (fs gs : List Frame)
    → log_of c frag (fs ++ gs) ≡ log_of c frag fs ++ log_of c (unfinished frag fs) gs
unfolding log_of unfinished
log_of-append c frag [] gs = refl
log_of-append c frag (f ∷ fs) gs =
    ap (λ t. seen_of c frag f ∷ t) (log_of-append c (fragmented_after frag f.header) fs gs)

pub Frames-append :
    (bytes mid left tail : List ℕ) (fs gs : List Frame)
    → Frames bytes fs mid
    → Frames (mid ++ tail) gs left
    → Frames (bytes ++ tail) (fs ++ gs) left
Frames-append bytes mid left tail fs gs (at_end e h) rest =
    subst (λ t. Frames (t ++ tail) gs left) h rest
Frames-append bytes mid left tail fs gs (one_more f mine e r) rest =
    one_more f (mine ++ tail) (take_frame-append bytes mine tail f e)
      (Frames-append mine mid left tail _ gs r rest)

pub Frames-end :
    (bytes left : List ℕ) (fs : List Frame) → Frames bytes fs left → take_frame left ≡ none
Frames-end bytes left fs (at_end e h) = rw h e
Frames-end bytes left fs (one_more f rest e r) = Frames-end rest left _ r

same-frame :
    (o : Option (Frame × List ℕ)) (f g : Frame) (rest rest' : List ℕ)
    → o ≡ some (f, rest)
    → o ≡ some (g, rest')
    → (f ≡ g) × (rest' ≡ rest)
same-frame o f g rest rest' h h' = (cc, cc)

of_same :
    (bytes bytes' left : List ℕ) (fs : List Frame)
    → bytes ≡ bytes'
    → Frames bytes fs left
    → Frames bytes' fs left
of_same bytes bytes' left fs e r = subst (λ t. Frames t fs left) e r

-- The bytes hold one list of frames only.
pub Frames-unique :
    (bytes left left' : List ℕ) (fs gs : List Frame)
    → Frames bytes fs left
    → Frames bytes gs left'
    → fs ≡ gs
Frames-unique bytes left left' fs gs (at_end e h) (at_end e' h') = refl
Frames-unique bytes left left' fs gs (at_end e h) (one_more f rest e' r) = cc
Frames-unique bytes left left' fs gs (one_more f rest e r) (at_end e' h) = cc
Frames-unique bytes left left' fs gs (one_more f rest e r) (one_more g rest' e' r') =
    let same = same-frame (take_frame bytes) f g rest rest' e e' in
    let ih = Frames-unique rest left left' _ _ r (of_same rest' rest left' _ same.1 r') in
    rw (same.0, ih) refl

-- What a round of parsing has read.
pub record Parses (c : Bool) (buf : List ℕ) (s : State) (p : Parsed) : Type 0 where
  pub frames : List Frame
  pub read : Frames buf frames p.rest
  pub fragmented : p.state.fragmented ≡ unfinished s.fragmented frames
  pub logged : seen_lines p.lines ≡ log_of c s.fragmented frames

take_frame-short : (buf : List ℕ) → ltb (length buf) 2 ≡ true → take_frame buf ≡ none
unfolding take_frame
take_frame-short [] h = refl
take_frame-short (a ∷ []) h = refl
take_frame-short (a ∷ (b ∷ buf)) h = ground (arith, h)

report_http-silent : (buf : List ℕ) (s : State) → seen_lines ((report_http buf s).1) ≡ []
unfolding report_http seen_lines
report_http-silent buf s = ground arith

report_http-fragmented :
    (buf : List ℕ) (s : State) → ((report_http buf s).0).fragmented ≡ s.fragmented
unfolding report_http
report_http-fragmented buf s = ground arith

add_lines-Parses :
    (c : Bool) (buf : List ℕ) (s s' : State) (said : List Line) (p : Parsed)
    → seen_lines said ≡ []
    → s'.fragmented ≡ s.fragmented
    → Parses c buf s' p
    → Parses c buf s (add_lines said p)
add_lines-Parses c buf s s' said p quiet same parses = record {
  frames = parses.frames;
  read = parses.read;
  fragmented = parses.fragmented ∙ ap (λ b. unfinished b parses.frames) same;
  logged =
      seen_lines-append said p.lines
      ∙ ap (λ t. t ++ seen_lines p.lines) quiet
      ∙ parses.logged
      ∙ ap (λ b. log_of c b parses.frames) same;
}

nothing-Parses :
    (c : Bool) (buf : List ℕ) (s : State)
    → take_frame buf ≡ none
    → Parses c buf s (record { rest = buf; state = s; lines = [] })
unfolding unfinished log_of seen_lines
nothing-Parses c buf s h = record {
  frames = [];
  read = at_end h refl;
  fragmented = refl;
  logged = refl;
}

module _ (n : ℕ) (c : Bool) (go_on : List ℕ → State → Parsed) where
  frame-Parses :
      (buf rest : List ℕ) (f : Frame) (s : State)
      → take_frame buf ≡ some (f, rest)
      → Parses c rest (after_frame f s) (go_on rest (after_frame f s))
      → Parses c buf s (round_end c go_on buf s (some (f, rest)))
  unfolding unfinished log_of seen_lines
  frame-Parses buf rest f s h parses = record {
    frames = f ∷ parses.frames;
    read = one_more f rest h parses.read;
    fragmented = parses.fragmented;
    logged = ap (λ t. seen_of c s.fragmented f ∷ t) parses.logged;
  }

  round_end-Parses :
      ((rest : List ℕ) (s : State) → length rest ≤ n → Parses c rest s (go_on rest s))
      → (buf : List ℕ) (s : State) → length buf ≤ suc n
      → Parses c buf s (round_end c go_on buf s (take_frame buf))
  round_end-Parses go buf s h = elim (Option-cases (take_frame buf)) [
    | inl e ↦ rw e (nothing-Parses c buf s e)
    | inr ((f, rest), e) ↦ rw e (
        frame-Parses buf rest f s e
          (go rest (after_frame f s) (omega (arith, h, take_frame-shorter buf rest f e))))
  ]

pub parse_loop-Parses :
    (n : ℕ) (c : Bool) (buf : List ℕ) (s : State)
    → length buf ≤ n
    → Parses c buf s (parse_loop n c buf s)
unfolding parse_loop
parse_loop-Parses zero c [] s h = nothing-Parses c [] s (take_frame-short [] refl)
parse_loop-Parses zero c (b ∷ buf) s h = absurd (omega (arith, h))
parse_loop-Parses (suc n) c buf s h = elim (Bool-cases (ltb (length buf) 2)) [
  | inl e ↦ rw e (nothing-Parses c buf s (take_frame-short buf e))
  | inr e ↦
      let r = report_http buf s in
      let rounds = λ (rest : List ℕ). λ (t : State). parse_loop n c rest t in
      rw e (
        add_lines-Parses c buf s r.0 r.1 (round_end c rounds buf r.0 (take_frame buf))
          (report_http-silent buf s) (report_http-fragmented buf s)
          (round_end-Parses n c rounds (parse_loop-Parses n c) buf r.0 h))
]
