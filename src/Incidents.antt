-- ===== src/Incidents.antt =====
-- agent/incidents.py: the ledger that says of each incident twice at most, when it starts and how
-- it ends. Times are whole seconds; `remind_seconds` and `max_per_hour` are the two settings
-- `REMIND_SECONDS` and `MAX_PER_HOUR`; `send` may raise and has a state of its own, the type `W`.
mod Replies
mod Tests
pub mod Once
pub mod Run
pub mod Ceiling
pub mod Lifecycle
pub mod Pruning
pub mod Openness
unfoldable pub use Replies.*
use srechat.Prelude.{
  ℕ, ◌-◌, Bool, true, false, ◌&&◌, Option, none, some, List, [], ◌∷◌, ◌++◌, leb, ◌==◌, within,
  if◌then◌else◌, length, keep, Outcome, returned, raised,
}
use srechat.Prelude.Window.{live}
use srechat.Text.{starts_with}
use srechat.Disk.{File, load, save}
use srechat.Dict
use srechat.Dict.{Dict}

pub data Status : Type 0 where
  still_open resolved : Status

pub record Entry : Type 0 where
  pub status : Status
  pub opened_at : ℕ
  pub emailed_at : Option ℕ
  pub unresolved_emailed_at : Option ℕ
  pub closed_at : Option ℕ

pub record Ledger : Type 0 where
  pub incidents : Dict Entry
  pub sent : List ℕ

abbrev pub empty_ledger : Ledger
empty_ledger = record { incidents = Dict.empty; sent = [] }

-- The send times of the last hour.
unfoldable pub recent : ℕ → List ℕ → List ℕ
unfolding live
recent now sent = live 3600 now sent

-- `_ceiling_hit`: it prunes the send times, and tells whether the hour is used up.
unfoldable pub ceiling_hit : ℕ → Ledger → ℕ → Bool × Ledger
unfolding recent
ceiling_hit max_per_hour state now =
    let state' = record state { sent = recent now state.sent } in
    (leb max_per_hour (length state'.sent), state')

pub record Delivery {ℓ} (W : Type ℓ) : Type ℓ where
  pub delivered : Bool
  pub result : List ℕ
  pub state : Ledger
  pub world : W

-- What a ledger operation gives back: its reply, the file and the state of the sender.
pub record Reply {ℓ} (W : Type ℓ) : Type ℓ where
  pub text : List ℕ
  pub file : File Ledger
  pub world : W

abbrev pub Sender {ℓ} : Type ℓ → Type ℓ
Sender W = List ℕ → W → Outcome (List ℕ) × W

abbrev pub is_still_open : Option Entry → Bool
is_still_open none = false
is_still_open (some e) = elim e.status [ still_open ↦ true | resolved ↦ false ]

-- `told is not None and now - told < window`: the time told, if it is inside the window.
abbrev pub told_within : ℕ → ℕ → Option ℕ → Option ℕ
told_within now window none = none
told_within now window (some told) = if within now told window then some told else none

abbrev pub emailed : Option Entry → Option ℕ
emailed none = none
emailed (some e) = e.emailed_at

abbrev pub fresh_entry : ℕ → Entry
fresh_entry now = record {
  status = still_open;
  opened_at = now;
  emailed_at = none;
  unresolved_emailed_at = none;
  closed_at = none;
}

-- The entry that `opened` goes on with.
abbrev pub entry_to_open : ℕ → Option Entry → Entry
entry_to_open now none = fresh_entry now
entry_to_open now (some e) = elim e.status [ still_open ↦ e | resolved ↦ fresh_entry now ]

abbrev pub seconds_or : ℕ → Option ℕ → ℕ
seconds_or d none = d
seconds_or d (some s) = s

abbrev pub mark_emailed : Bool → ℕ → Entry → Entry
mark_emailed ok now e = if ok then record e { emailed_at = some now } else e

abbrev pub mark_unresolved : Bool → ℕ → Entry → Entry
mark_unresolved ok now e = if ok then record e { unresolved_emailed_at = some now } else e

abbrev pub close_entry : ℕ → Entry → Entry
close_entry now e = record e { status = resolved; closed_at = some now }

abbrev pub reported_entry : ℕ → Entry
reported_entry now = record {
  status = resolved;
  opened_at = now;
  emailed_at = some now;
  unresolved_emailed_at = none;
  closed_at = some now;
}

abbrev pub put_entry : Ledger → List ℕ → Entry → Ledger
put_entry state key e = record state { incidents = Dict.put state.incidents key e }

module _ {ℓ} {W : Type ℓ} where
  -- The end of `_deliver`: counted only if the reply says that it went.
  abbrev pub counted : Ledger → ℕ → Outcome (List ℕ) × W → Delivery W
  counted state now (returned result, w) =
      if starts_with email_sent result
      then record {
        delivered = true;
        result = result;
        state = record state { sent = state.sent ++ now ∷ [] };
        world = w;
      }
      else record { delivered = false; result = result; state = state; world = w }
  counted state now (raised exc, w) = record {
    delivered = false;
    result = email_failed exc;
    state = state;
    world = w;
  }

  unfoldable pub deliver : ℕ → Ledger → Sender W → List ℕ → ℕ → W → Delivery W
  unfolding ceiling_hit
  deliver max_per_hour state send text now w =
      let (hit, state') = ceiling_hit max_per_hour state now in
      if hit
      then record {
        delivered = false;
        result = over_ceiling max_per_hour;
        state = state';
        world = w;
      }
      else counted state' now (send text w)

module _ {ℓ} {W : Type ℓ} where
  -- The early return of a call that was told recently enough: nothing is sent or saved.
  abbrev pub unless_told : Option ℕ → (ℕ → List ℕ) → File Ledger → W → Reply W → Reply W
  unless_told (some told) say file w fresh = record { text = say told; file = file; world = w }
  unless_told none say file w fresh = fresh

module _ {ℓ} {W : Type ℓ} (remind_seconds max_per_hour : ℕ) (send : Sender W) where
  -- A delivery whose outcome is written to the entry by `mark`.
  abbrev pub deliver_and_save :
      (Bool → ℕ → Entry → Entry) → List ℕ → List ℕ → ℕ → Ledger → Entry → File Ledger → W → Reply W
  deliver_and_save mark key text now state e file w =
      let d = deliver max_per_hour state send text now w in
      record {
        text = d.result;
        file = save (put_entry d.state key (mark d.delivered now e)) file;
        world = d.world;
      }

  unfoldable pub opened : List ℕ → List ℕ → ℕ → File Ledger → W → Reply W
  opened key text now file w =
      let state = load empty_ledger file in
      let entry = Dict.get state.incidents key in
      let told =
        if is_still_open entry then told_within now remind_seconds (emailed entry) else none in
      unless_told told (already_reported now) file w
        (deliver_and_save mark_emailed key text now state (entry_to_open now entry) file w)

  -- `outcome` with `resolved=True`, on the time at which the opening was e-mailed.
  abbrev pub outcome_resolved :
      Option ℕ → List ℕ → List ℕ → ℕ → Ledger → Entry → File Ledger → W → Reply W
  outcome_resolved none key text now state e file w = record {
    text = never_emailed;
    file = save (put_entry state key (close_entry now e)) file;
    world = w;
  }
  outcome_resolved (some told) key text now state e file w =
      deliver_and_save (λ _ _ x. x) key text now state (close_entry now e) file w

  abbrev pub outcome_unresolved : List ℕ → List ℕ → ℕ → Ledger → Entry → File Ledger → W → Reply W
  outcome_unresolved key text now state e file w =
      unless_told (told_within now remind_seconds e.unresolved_emailed_at) (already_unresolved now)
        file w (deliver_and_save mark_unresolved key text now state e file w)

  -- The entry, if there is one and it is open.
  abbrev pub outcome_entry :
      Option Entry → Bool → List ℕ → List ℕ → ℕ → Ledger → File Ledger → W → Reply W
  outcome_entry none fixed key text now state file w = record {
    text = no_open_incident;
    file = file;
    world = w;
  }
  outcome_entry (some e) true key text now state file w =
      outcome_resolved e.emailed_at key text now state e file w
  outcome_entry (some e) false key text now state file w =
      outcome_unresolved key text now state e file w

  unfoldable pub outcome : List ℕ → List ℕ → Bool → ℕ → File Ledger → W → Reply W
  outcome key text fixed now file w =
      let state = load empty_ledger file in
      let entry = Dict.get state.incidents key in
      outcome_entry (if is_still_open entry then entry else none) fixed key text now state file w

  -- `window` is the argument `remind_seconds` of `report`, `none` where the caller gives none.
  unfoldable pub report : List ℕ → List ℕ → Option ℕ → ℕ → File Ledger → W → Reply W
  report key text window now file w =
      let state = load empty_ledger file in
      let d = deliver max_per_hour state send text now w in
      unless_told
        (told_within now (seconds_or remind_seconds window)
          (emailed (Dict.get state.incidents key)))
        (already_reported now) file w
        (record {
          text = d.result;
          file =
              save (if d.delivered then put_entry d.state key (reported_entry now) else d.state)
                file;
          world = d.world;
        })

unfoldable pub is_open : List ℕ → File Ledger → Bool
is_open key file = is_still_open (Dict.get (load empty_ledger file).incidents key)

-- `v.get("closed_at") or v.get("opened_at") or now`: a zero counts as absent.
abbrev pub or_else : Option ℕ → ℕ → ℕ
or_else none d = d
or_else (some t) d = if t == 0 then d else t

abbrev pub is_kept : ℕ → ℕ → Entry → Bool
is_kept now max_age e = elim e.status [
  | still_open ↦ true
  | resolved ↦ within now (or_else e.closed_at (or_else (some e.opened_at) now)) max_age
]

-- `prune`: the number of forgotten entries, and the file.
unfoldable pub prune : ℕ → ℕ → File Ledger → ℕ × File Ledger
prune max_age now file =
    let state = load empty_ledger file in
    let items =
      keep (λ (item : List ℕ × Entry). is_kept now max_age item.1) state.incidents.items in
    (
      length state.incidents.items - length items,
      save (record state { incidents = record { items = items } }) file,
    )
