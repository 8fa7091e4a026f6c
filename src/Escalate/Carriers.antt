-- ===== src/Escalate/Carriers.antt =====
-- agent/escalate.py, the carriers: which of them are configured, what each request says, and
-- `_try_carriers`. `post` is the HTTP request of the library, on a state `W` of the network: it
-- answers a status, 0 where no answer came, and a body.
pub mod Order
use srechat.Prelude.{
  ℕ, Bool, true, false, not, ◌&&◌, ◌||◌, List, [], ◌∷◌, ◌++◌, leb, ltb, if◌then◌else◌, is_empty,
  take,
}
use srechat.Text.{codes, text_eq, join, show}
use srechat.Escalate.Brand.{branded, spoken}

-- The settings, stripped; an absent one is empty.
pub record Credentials : Type 0 where
  pub human_phone : List ℕ
  pub telnyx_api_key : List ℕ
  pub telnyx_from : List ℕ
  pub telnyx_account_id : List ℕ
  pub telnyx_texml_app_id : List ℕ
  pub texml_base : List ℕ
  pub twilio_sid : List ℕ
  pub twilio_token : List ℕ
  pub twilio_key_sid : List ℕ
  pub twilio_key_secret : List ℕ
  pub twilio_from : List ℕ

abbrev pub is_set : List ℕ → Bool
is_set s = not (is_empty s)

unfoldable pub telnyx_available : Credentials → Bool
telnyx_available c = is_set c.telnyx_api_key && is_set c.telnyx_from && is_set c.human_phone

unfoldable pub twilio_available : Credentials → Bool
twilio_available c =
    is_set c.twilio_sid
    && ((is_set c.twilio_key_sid && is_set c.twilio_key_secret) || is_set c.twilio_token)
    && is_set c.twilio_from
    && is_set c.human_phone

-- `_twilio_auth`: the user and the secret that are sent.
unfoldable pub twilio_auth : Credentials → List ℕ × List ℕ
twilio_auth c =
    if is_set c.twilio_key_sid && is_set c.twilio_key_secret
    then (c.twilio_key_sid, c.twilio_key_secret)
    else (c.twilio_sid, c.twilio_token)

-- A request: its form or JSON fields, and the user and secret or the bearer key that it carries.
pub record Request : Type 0 where
  pub url : List ℕ
  pub fields : List (List ℕ × List ℕ)
  pub auth : List ℕ × List ℕ

-- A status and a body.
abbrev pub Answer : Type 0
Answer = ℕ × List ℕ

abbrev pub bearer : List ℕ → List ℕ × List ℕ
bearer key = (codes "Bearer", key)

pub record Carrier (W : Type 0) : Type 0 where
  pub name : List ℕ
  pub available : Bool
  pub send : List ℕ → W → Answer × W

-- `200 <= status < 300`.
abbrev pub is_success : ℕ → Bool
is_success status = leb 200 status && ltb status 300

abbrev pub after : List (List ℕ) → List ℕ
after attempts =
    if is_empty attempts then [] else codes " (after: " ++ (join (codes ", ") attempts ++ codes ")")

abbrev pub exhausted : List (List ℕ) → List ℕ
exhausted attempts =
    if is_empty attempts then codes "no carrier configured" else join (codes "; ") attempts

abbrev pub unconfigured : List ℕ → List ℕ
unconfigured name = name ++ codes "=unconfigured"

abbrev pub refused : List ℕ → Answer → List ℕ
refused name (status, body) = name ++ (codes "=" ++ (show status ++ (codes " " ++ take 80 body)))

module _ {W : Type 0} where
  -- The loop of `_try_carriers` over the chain.
  unfoldable pub try_chain : List (Carrier W) → List ℕ → List (List ℕ) → W → (Bool × List ℕ) × W
  try_chain [] text attempts w = ((false, exhausted attempts), w)
  try_chain (c ∷ chain) text attempts w =
      let (answer, w') = c.send text w in
      let skipped = try_chain chain text (attempts ++ unconfigured c.name ∷ []) w in
      let failed = try_chain chain text (attempts ++ refused c.name answer ∷ []) w' in
      let called =
        if is_success answer.0
        then ((true, codes "delivered via " ++ (c.name ++ after attempts)), w')
        else failed in
      if c.available then called else skipped

  module _ (c : Credentials) (quote : List ℕ → List ℕ) (post : Request → W → Answer × W) where
    unfoldable pub telnyx_sms : List ℕ → W → Answer × W
    telnyx_sms text = post (record {
      url = codes "https://api.telnyx.com/v2/messages";
      fields =
          (codes "from", c.telnyx_from)
          ∷ (codes "to", c.human_phone)
          ∷ (codes "text", take 1500 text)
          ∷ [];
      auth = bearer c.telnyx_api_key;
    })

    abbrev twilio_url : List ℕ → List ℕ
    twilio_url resource =
        codes "https://api.twilio.com/2010-04-01/Accounts/" ++ (c.twilio_sid ++ resource)

    unfoldable pub twilio_sms : List ℕ → W → Answer × W
    unfolding twilio_auth
    twilio_sms text = post (record {
      url = twilio_url (codes "/Messages.json");
      fields =
          (codes "From", c.twilio_from)
          ∷ (codes "To", c.human_phone)
          ∷ (codes "Body", take 1500 text)
          ∷ [];
      auth = twilio_auth c;
    })

    unfoldable pub twilio_call : List ℕ → W → Answer × W
    unfolding twilio_auth spoken
    twilio_call text = post (record {
      url = twilio_url (codes "/Calls.json");
      fields =
          (codes "From", c.twilio_from)
          ∷ (codes "To", c.human_phone)
          ∷ (
            codes "Twiml",
            codes "<Response><Say voice=\"alice\">" ++ (spoken text ++ codes "</Say></Response>"),
          )
          ∷ [];
      auth = twilio_auth c;
    })

    unfoldable pub telnyx_call : List ℕ → W → Answer × W
    telnyx_call text w =
        if is_empty c.telnyx_account_id || is_empty c.telnyx_texml_app_id
        then (
          (0, codes "TELNYX_ACCOUNT_ID and TELNYX_TEXML_APP_ID are both required for Telnyx voice"),
          w,
        )
        else post
            (record {
              url =
                  codes "https://api.telnyx.com/v2/texml/Accounts/"
                  ++ (c.telnyx_account_id ++ codes "/Calls");
              fields =
                  (codes "From", c.telnyx_from)
                  ∷ (codes "To", c.human_phone)
                  ∷ (codes "Url", c.texml_base ++ (codes "/texml?text=" ++ quote (take 300 text)))
                  ∷ (codes "ApplicationSid", c.telnyx_texml_app_id)
                  ∷ [];
              auth = bearer c.telnyx_api_key;
            })
            w

    abbrev pub telnyx : (List ℕ → W → Answer × W) → Carrier W
    telnyx send = record { name = codes "telnyx"; available = telnyx_available c; send = send }

    abbrev pub twilio : (List ℕ → W → Answer × W) → Carrier W
    twilio send = record { name = codes "twilio"; available = twilio_available c; send = send }

    -- The chain of `_try_carriers`: `kind` is "sms", or anything else for a call.
    unfoldable pub chain_of : List ℕ → List (Carrier W)
    unfolding telnyx_sms twilio_sms twilio_call telnyx_call telnyx_available twilio_available
    chain_of kind =
        if text_eq kind (codes "sms")
        then telnyx telnyx_sms ∷ twilio twilio_sms ∷ []
        else twilio twilio_call ∷ telnyx telnyx_call ∷ []

    unfoldable pub try_carriers : List ℕ → List ℕ → W → (Bool × List ℕ) × W
    unfolding chain_of try_chain branded
    try_carriers kind text = try_chain (chain_of kind) (branded text) []
