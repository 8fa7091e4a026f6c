-- ===== src/Incidents/Openness/Refinement.antt =====
-- agent/incidents.py: the ledger against its contract, over any calls.
use mathlib.Core.Path.{fun_ext}
use srechat.Prelude.{
  ℕ, ◌≡◌, refl, ap, ◌∙◌, Bool, true, false, Option, none, some, List, [], ◌∷◌, if◌then◌else◌,
}
use srechat.Text.{text_eq_refl, starts_with}
use srechat.Disk.{File, load, save, load-save}
use srechat.Dict
use srechat.Dict.{Dict}
use srechat.Incidents.{
  Ledger, Entry, empty_ledger, Sender, Reply, deliver, report, prune, is_kept, is_open,
  is_still_open, put_entry, email_sent, unless_told, reported_entry, already_reported,
  email_sent-already_reported,
}
use srechat.Incidents.Once.{delivered-deliver}
use srechat.Incidents.Run.{Call, opened_call, outcome_call, report_call, prune_call, perform}
use srechat.Incidents.Ceiling.{perform-writable}
use srechat.Incidents.Lifecycle.{entry_of-save, incidents-deliver}
use srechat.Incidents.Pruning.{items_of, items_of-prune}
use srechat.Incidents.Openness.{
  Open, set_open, next_open, open_in, set_open-entry, open_in-opened, open_in-outcome,
}
use srechat.Incidents.Openness.Distinct.{IsLedger, perform-IsLedger, open-keep, is_kept-closed}

module _ {W : Type 0} (remind_seconds max_per_hour : ℕ) (send : Sender W) where
  -- What `report` leaves open, by what its reply says.
  abbrev Reports : List ℕ → List ℕ → File Ledger → Reply W → Type 0
  Reports key j file r =
      open_in r.file j
      ≡ (if starts_with email_sent r.text then set_open key false (open_in file) else open_in file)
          j

  unless_told-Reports :
      (key j : List ℕ) (o : Option ℕ) (now : ℕ) (file : File Ledger) (w : W) (fresh : Reply W)
      → Reports key j file fresh
      → Reports key j file (unless_told o (already_reported now) file w fresh)
  unless_told-Reports key j none now file w fresh h = h
  unless_told-Reports key j (some told) now file w fresh h =
      rw (email_sent-already_reported now told) refl

  saved-open :
      (b : Bool) (key j text : List ℕ) (now : ℕ) (file : File Ledger) (w : W)
      → file.writable ≡ true
      → let d = deliver max_per_hour (load empty_ledger file) send text now w in
        open_in (save (if b then put_entry d.state key (reported_entry now) else d.state) file) j
        ≡ (if b then set_open key false (open_in file) else open_in file) j
  unfolding is_open
  saved-open true key j text now file w wr =
      let d = deliver max_per_hour (load empty_ledger file) send text now w in
      let e = reported_entry now in
      let same = incidents-deliver max_per_hour send (load empty_ledger file) text now w in
      set_open-entry key j false file (save (put_entry d.state key e) file)
        (ap is_still_open (entry_of-save d.state key key e file wr) ∙ rw (text_eq_refl key) refl)
        (λ ne.
          entry_of-save d.state key j e file wr
          ∙ rw ne (ap (λ (i : Dict Entry). Dict.get i j) same))
  saved-open false key j text now file w wr =
      let d = deliver max_per_hour (load empty_ledger file) send text now w in
      ap (λ (l : Ledger). is_still_open (Dict.get l.incidents j))
        (load-save empty_ledger d.state file wr)
      ∙ ap (λ (i : Dict Entry). is_still_open (Dict.get i j))
          (incidents-deliver max_per_hour send (load empty_ledger file) text now w)

  report-Reports :
      (key j text : List ℕ) (window : Option ℕ) (now : ℕ) (file : File Ledger) (w : W)
      → file.writable ≡ true
      → Reports key j file (report remind_seconds max_per_hour send key text window now file w)
  unfolding report
  report-Reports key j text window now file w wr =
      let d = deliver max_per_hour (load empty_ledger file) send text now w in
      unless_told-Reports key j _ now file w _ (
        saved-open d.delivered key j text now file w wr
        ∙ ap (λ (b : Bool). (if b then set_open key false (open_in file) else open_in file) j)
            (delivered-deliver max_per_hour send (load empty_ledger file) text now w))

  open_in-prune :
      (j : List ℕ) (max_age now : ℕ) (file : File Ledger)
      → file.writable ≡ true
      → IsLedger file
      → open_in (prune max_age now file).1 j ≡ open_in file j
  unfolding is_open Dict.get
  open_in-prune j max_age now file wr h =
      ap (λ items. is_still_open (Dict.lookup j items)) (items_of-prune max_age now file wr)
      ∙ open-keep (is_kept now max_age) (is_kept-closed now max_age) j (items_of file) h

  -- One call does to the open incidents what the contract says.
  perform-next_open :
      (t : ℕ) (c : Call) (file : File Ledger) (w : W) (j : List ℕ)
      → file.writable ≡ true
      → IsLedger file
      → let r = perform remind_seconds max_per_hour send t c file w in
        open_in r.file j ≡ next_open c (starts_with email_sent r.text) (open_in file) j
  unfolding perform
  perform-next_open t (opened_call key text) file w j wr h =
      open_in-opened remind_seconds max_per_hour send key j text t file w wr
  perform-next_open t (outcome_call key text fixed) file w j wr h =
      open_in-outcome remind_seconds max_per_hour send key j text fixed t file w wr
  perform-next_open t (report_call key text window) file w j wr h =
      report-Reports key j text window t file w wr
  perform-next_open t (prune_call age) file w j wr h = open_in-prune j age t file wr h

  -- The file after calls, and what the contract says of the open incidents, given the replies.
  unfoldable pub run : List (ℕ × Call) → File Ledger → W → File Ledger
  run [] file w = file
  run ((t, c) ∷ calls) file w =
      let r = perform remind_seconds max_per_hour send t c file w in run calls r.file r.world

  unfoldable pub run_open : List (ℕ × Call) → File Ledger → W → Open → Open
  run_open [] file w o = o
  run_open ((t, c) ∷ calls) file w o =
      let r = perform remind_seconds max_per_hour send t c file w in
      run_open calls r.file r.world (next_open c (starts_with email_sent r.text) o)

  -- Where the file can be written and has one entry for each key, the open incidents after any calls are
  -- what the contract makes of those before: an opening opens its incident, a resolved outcome closes it, a
  -- report that was sent closes it, and nothing else does, no pruning, no failure and no other key.
  pub is_open-run :
      (calls : List (ℕ × Call)) (file : File Ledger) (w : W) (j : List ℕ)
      → file.writable ≡ true
      → IsLedger file
      → is_open j (run calls file w) ≡ run_open calls file w (λ key. is_open key file) j
  unfolding run run_open
  is_open-run [] file w j wr h = refl
  is_open-run ((t, c) ∷ calls) file w j wr h =
      let r = perform remind_seconds max_per_hour send t c file w in
      is_open-run calls r.file r.world j
        (perform-writable remind_seconds max_per_hour send t c file w ∙ wr)
        (perform-IsLedger remind_seconds max_per_hour send t c file w wr h)
      ∙ ap (λ (o : Open). run_open calls r.file r.world o j)
          (fun_ext (λ key. perform-next_open t c file w key wr h))
