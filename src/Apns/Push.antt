-- ===== src/Apns/Push.antt =====
-- agent/apns.py: `push`, apart from the token. `json` is `json.dumps` of the payload with this title and
-- body, and `curl` runs the command: its output and errors, or none where it timed out.
mod Tests
use srechat.Prelude.{
  ℕ, Bool, true, false, not, ◌&&◌, Option, none, some, List, [], ◌∷◌, ◌++◌, ◌==◌, if◌then◌else◌,
  take, is_empty, all,
}
use srechat.Text.{codes, strip, is_digit, digits_from}

-- `text.rsplit(sep, 1)` for one character: none where it is not there.
abbrev pub split_here : ℕ → ℕ → List ℕ → Option (List ℕ × List ℕ) → Option (List ℕ × List ℕ)
split_here sep c text none = if c == sep then some ([], text) else none
split_here sep c text (some (before, after)) = some (c ∷ before, after)

unfoldable pub split_last : ℕ → List ℕ → Option (List ℕ × List ℕ)
split_last sep [] = none
split_last sep (c ∷ text) = split_here sep c text (split_last sep text)

-- The status on the last line, and the body; status 0 where there is none.
abbrev pub status_of : List ℕ → List ℕ → Option (List ℕ × List ℕ) → ℕ × List ℕ
status_of out errors none = (0, take 200 (if is_empty errors then out else errors))
status_of out errors (some (body, line)) =
    if not (is_empty (strip line)) && all is_digit (strip line)
    then (digits_from 0 (strip line), strip body)
    else (0, take 200 (if is_empty errors then out else errors))

unfoldable pub push_result : Option (List ℕ × List ℕ) → ℕ × List ℕ
unfolding split_last strip digits_from
push_result none = (0, codes "curl timed out")
push_result (some (out, errors)) = status_of out errors (split_last b'\n' out)

abbrev pub collapse_header : List ℕ → List (List ℕ)
collapse_header id =
    if is_empty id then [] else codes "-H" ∷ (codes "apns-collapse-id: " ++ take 64 id) ∷ []

abbrev pub curl_command : List ℕ → List ℕ → List ℕ → List ℕ → List ℕ → List ℕ → List (List ℕ)
curl_command bearer bundle host device_token collapse_id payload =
    (codes "curl"
      ∷ codes "--http2"
      ∷ codes "-s"
      ∷ codes "-S"
      ∷ codes "--max-time"
      ∷ codes "20"
      ∷ codes "-o"
      ∷ codes "-"
      ∷ codes "-w"
      ∷ codes "\n%{http_code}"
      ∷ codes "-X"
      ∷ codes "POST"
      ∷ codes "-H"
      ∷ (codes "authorization: bearer " ++ bearer)
      ∷ codes "-H"
      ∷ (codes "apns-topic: " ++ bundle)
      ∷ codes "-H"
      ∷ codes "apns-push-type: alert"
      ∷ codes "-H"
      ∷ codes "apns-priority: 10"
      ∷ codes "-H"
      ∷ codes "content-type: application/json"
      ∷ [])
    ++ (collapse_header collapse_id
        ++ codes "-d"
          ∷ payload
          ∷ (codes "https://" ++ (host ++ (codes "/3/device/" ++ device_token)))
          ∷ [])

unfoldable pub push :
    {W : Type 0}
    → (List ℕ → List ℕ → List ℕ)
    → (List (List ℕ) → W → Option (List ℕ × List ℕ) × W)
    → Bool
    → List ℕ
    → List ℕ
    → List ℕ
    → List ℕ
    → List ℕ
    → List ℕ
    → List ℕ
    → W
    → (ℕ × List ℕ) × W
unfolding push_result
push json curl is_enabled bearer bundle host device_token title body collapse_id w =
    let (out, w') =
      curl (curl_command bearer bundle host device_token collapse_id (json title body)) w in
    if is_enabled then (push_result out, w') else ((0, codes "apns not configured"), w)
