-- ===== src/Relay/Http/Heads.antt =====
-- tools/ws_relay.py: `read_http_head` loses none of the bytes that it receives.
use mathlib.Core.List.{append_assoc}
use srechat.Prelude.{
  ℕ, ◌≡◌, refl, sym, ap, ◌∙◌, true, Option, none, some, List, [], ◌∷◌, ◌++◌, arith, length, drop,
  Option-cases, Bool-cases, inl, inr, Outcome, returned, raised, subst,
}
use srechat.Text.{starts_with}
use srechat.Relay.Stream.{Ending, at_eof, recv_raised, sendall_raised}
use srechat.Relay.Stream.Chunks.{concat}
use srechat.Relay.Http.{blank_line, cut_after, Head, head_or, head_end, read_http_head}

starts_with-drop :
    (sep text : List ℕ) → starts_with sep text ≡ true → sep ++ drop (length sep) text ≡ text
unfolding starts_with
starts_with-drop [] text h = refl
starts_with-drop (c ∷ sep) [] h = cc
starts_with-drop (c ∷ sep) (d ∷ text) h = ground (arith, h, starts_with-drop sep text)

cut_here :
    (head rest head' rest' : List ℕ)
    → ◌≡◌ {A = Option (List ℕ × List ℕ)} (some (head, rest)) (some (head', rest'))
    → (head' ≡ head) × (rest' ≡ rest)
cut_here head rest head' rest' h = (cc, cc)

-- The two parts of a text that is cut are all of it.
cut_after-append :
    (sep text head rest : List ℕ) → cut_after sep text ≡ some (head, rest) → head ++ rest ≡ text
unfolding cut_after
cut_after-append sep [] head rest h = cc
cut_after-append sep (c ∷ text) head rest h = elim (Bool-cases (starts_with sep (c ∷ text))) [
  | inl e ↦
      let same = cut_here sep (drop (length sep) (c ∷ text)) head rest (rw e at h) in
      rw (same.0, same.1) (starts_with-drop sep (c ∷ text) e)
  | inr e ↦ elim (Option-cases (cut_after sep text)) [
    | inl m ↦ cc (rw (e, m) at h)
    | inr ((head', rest'), m) ↦
        let same = cut_here (c ∷ head') rest' head rest (rw (e, m) at h) in
        rw (same.0, same.1) (ap (λ (t : List ℕ). c ∷ t) (cut_after-append sep text head' rest' m))
  ]
]

unfoldable pub all_of : Head → List ℕ
all_of h = h.head ++ (h.rest ++ concat h.later)

-- If a head was read, nothing that was received is lost.
unfoldable pub Keeps : List ℕ → Outcome Head → Type 0
Keeps bytes (raised exc) = Unit {0}
Keeps bytes (returned h) = all_of h ≡ bytes

head_or-Keeps :
    (chunks : List (List ℕ)) (buf : List ℕ) (o : Option (List ℕ × List ℕ)) (more : Outcome Head)
    → ((head rest : List ℕ) → o ≡ some (head, rest) → head ++ rest ≡ buf)
    → Keeps (buf ++ concat chunks) more
    → Keeps (buf ++ concat chunks) (head_or chunks o more)
unfolding all_of Keeps
head_or-Keeps chunks buf none more h e = e
head_or-Keeps chunks buf (some (head, rest)) more h e =
    sym (append_assoc head rest (concat chunks)) ∙ ap (λ t. t ++ concat chunks) (h head rest refl)

head_end-Keeps : (buf : List ℕ) (e : Ending) → Keeps (buf ++ concat []) (head_end buf e)
unfolding all_of Keeps concat
head_end-Keeps buf at_eof = refl
head_end-Keeps buf (recv_raised exc) = tt
head_end-Keeps buf (sendall_raised exc) = tt

pub read_http_head-Keeps :
    (e : Ending) (chunks : List (List ℕ)) (buf : List ℕ)
    → Keeps (buf ++ concat chunks) (read_http_head e buf chunks)
unfolding read_http_head concat
read_http_head-Keeps e [] buf =
    head_or-Keeps [] buf (cut_after blank_line buf) (head_end buf e)
      (cut_after-append blank_line buf) (head_end-Keeps buf e)
read_http_head-Keeps e (chunk ∷ chunks) buf =
    head_or-Keeps (chunk ∷ chunks) buf (cut_after blank_line buf)
      (read_http_head e (buf ++ chunk) chunks) (cut_after-append blank_line buf)
      (subst (λ t. Keeps t (read_http_head e (buf ++ chunk) chunks))
        (append_assoc buf chunk (concat chunks)) (read_http_head-Keeps e chunks (buf ++ chunk)))
