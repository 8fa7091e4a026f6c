-- ===== src/Incidents/Openness/Distinct.antt =====
-- agent/incidents.py: the ledger has one entry for each key, and `prune` forgets none that is open.
use srechat.Prelude.{
  ℕ, ◌≡◌, refl, sym, ap, subst, ◌∙◌, Bool, true, false, Option, none, some, List, [], ◌∷◌, arith,
  if◌then◌else◌, Bool-cases, inl, inr, keep,
}
use srechat.Text.{text_eq, text_eq_iff}
use srechat.Disk.{File, load, save, load-save}
use srechat.Dict
use srechat.Dict.{lookup-insert}
use srechat.Incidents.{
  Ledger, Entry, empty_ledger, Sender, deliver, opened, outcome, outcome_entry, outcome_resolved,
  report, is_kept, is_still_open, put_entry, close_entry, reported_entry,
}
use srechat.Incidents.Run.{Call, opened_call, outcome_call, report_call, prune_call, perform}
use srechat.Incidents.Lifecycle.{incidents-deliver}
use srechat.Incidents.Pruning.{items_of, items_of-prune}
use srechat.Incidents.Openness.{unless_told-file}

abbrev Item : Type 0
Item = List ℕ × Entry

-- No key stands twice.
abbrev pub Distinct : List (List ℕ × Entry) → Type 0
Distinct [] = Unit
Distinct ((k, e) ∷ items) = (Dict.lookup k items ≡ none) × Distinct items

text_ne-sym : (j k : List ℕ) → text_eq j k ≡ false → text_eq k j ≡ false
text_ne-sym j k h = elim (Bool-cases (text_eq k j)) [
  | inl e ↦ absurd (false_true (sym h ∙ (text_eq_iff j k).1 (sym ((text_eq_iff k j).0 e))))
  | inr e ↦ e
]
  where
    false_true : ◌≡◌ {A = Bool} false true → ⊥
    false_true q = cc

insert-Distinct :
    (k : List ℕ) (e : Entry) (items : List Item) → Distinct items → Distinct (Dict.insert k e items)
unfolding Dict.insert Dict.lookup
insert-Distinct k e [] h = (refl, tt)
insert-Distinct k e ((j, x) ∷ items) h = elim (Bool-cases (text_eq j k)) [
  | inl m ↦ rw m (subst (λ t. Dict.lookup t items ≡ none) ((text_eq_iff j k).0 m) h.0, h.1)
  | inr m ↦
      rw m (lookup-insert k j e items ∙ rw (text_ne-sym j k m) h.0, insert-Distinct k e items h.1)
]

module _ (p : Entry → Bool) where
  lookup-keep-none :
      (j : List ℕ) (items : List Item)
      → Dict.lookup j items ≡ none
      → Dict.lookup j (keep (λ (item : Item). p item.1) items) ≡ none
  unfolding Dict.lookup
  lookup-keep-none j [] h = refl
  lookup-keep-none j ((k, x) ∷ items) h = ground (arith, lookup-keep-none j items, h)

  keep-Distinct :
      (items : List Item) → Distinct items → Distinct (keep (λ (item : Item). p item.1) items)
  keep-Distinct [] h = tt
  keep-Distinct ((k, x) ∷ items) h = elim (Bool-cases (p x)) [
    | inl e ↦ rw e (lookup-keep-none k items h.0, keep-Distinct items h.1)
    | inr e ↦ rw e (keep-Distinct items h.1)
  ]

  -- What is dropped is not open, so that no open entry goes and none comes.
  pub open-keep :
      ((x : Entry) → p x ≡ false → is_still_open (some x) ≡ false)
      → (j : List ℕ) (items : List Item) → Distinct items
      → is_still_open (Dict.lookup j (keep (λ (item : Item). p item.1) items))
        ≡ is_still_open (Dict.lookup j items)
  unfolding Dict.lookup
  open-keep closed j [] h = refl
  open-keep closed j ((k, x) ∷ items) h =
      let ih = open-keep closed j items h.1 in
      elim (Bool-cases (p x)) [
        | inl e ↦ elim (Bool-cases (text_eq k j)) [ inl m ↦ rw (e, m) refl | inr m ↦ rw (e, m) ih ]
        | inr e ↦ elim (Bool-cases (text_eq k j)) [
          | inl m ↦
              let gone = subst (λ t. Dict.lookup t items ≡ none) ((text_eq_iff k j).0 m) h.0 in
              rw (e, m) (ap is_still_open (lookup-keep-none j items gone) ∙ sym (closed x e))
          | inr m ↦ rw (e, m) ih
        ]
      ]

pub is_kept-closed :
    (now max_age : ℕ) (x : Entry) → is_kept now max_age x ≡ false → is_still_open (some x) ≡ false
is_kept-closed now max_age x h = ground (arith, h)

-- A ledger with one entry for each key.
abbrev pub IsLedger : File Ledger → Type 0
IsLedger file = Distinct (items_of file)

save-IsLedger :
    (s : Ledger) (file : File Ledger)
    → file.writable ≡ true
    → Distinct s.incidents.items
    → IsLedger (save s file)
save-IsLedger s file wr h =
    subst (λ l. Distinct l.incidents.items) (sym (load-save empty_ledger s file wr)) h

save_put-IsLedger :
    (s : Ledger) (key : List ℕ) (e : Entry) (file : File Ledger)
    → file.writable ≡ true
    → Distinct s.incidents.items
    → IsLedger (save (put_entry s key e) file)
save_put-IsLedger s key e file wr h =
    save-IsLedger (put_entry s key e) file wr
      (unfold Dict.put in insert-Distinct key e s.incidents.items h)

reported-IsLedger :
    (b : Bool) (s : Ledger) (key : List ℕ) (e : Entry) (file : File Ledger)
    → file.writable ≡ true
    → Distinct s.incidents.items
    → IsLedger (save (if b then put_entry s key e else s) file)
reported-IsLedger true s key e file wr h = save_put-IsLedger s key e file wr h
reported-IsLedger false s key e file wr h = save-IsLedger s file wr h

module _ {W : Type 0} (remind_seconds max_per_hour : ℕ) (send : Sender W) where
  delivered-Distinct :
      (text : List ℕ) (now : ℕ) (file : File Ledger) (w : W)
      → IsLedger file
      → Distinct
          (deliver max_per_hour (load empty_ledger file) send text now w).state.incidents.items
  delivered-Distinct text now file w h =
      rw (incidents-deliver max_per_hour send (load empty_ledger file) text now w) h

  resolved-IsLedger :
      (told : Option ℕ) (key text : List ℕ) (now : ℕ) (e : Entry) (file : File Ledger) (w : W)
      → file.writable ≡ true
      → IsLedger file
      → IsLedger
          (outcome_resolved remind_seconds max_per_hour send told key text now
            (load empty_ledger file)
            e
            file
            w).file
  resolved-IsLedger none key text now e file w wr h =
      save_put-IsLedger (load empty_ledger file) key (close_entry now e) file wr h
  resolved-IsLedger (some told) key text now e file w wr h =
      save_put-IsLedger _ key (close_entry now e) file wr (delivered-Distinct text now file w h)

  outcome_entry-IsLedger :
      (o : Option Entry) (fixed : Bool) (key text : List ℕ) (now : ℕ) (file : File Ledger) (w : W)
      → file.writable ≡ true
      → IsLedger file
      → IsLedger
          (outcome_entry remind_seconds max_per_hour send o fixed key text now
            (load empty_ledger file)
            file
            w).file
  outcome_entry-IsLedger none fixed key text now file w wr h = h
  outcome_entry-IsLedger (some e) true key text now file w wr h =
      resolved-IsLedger e.emailed_at key text now e file w wr h
  outcome_entry-IsLedger (some e) false key text now file w wr h =
      unless_told-file remind_seconds max_per_hour send IsLedger _ _ file w _ h
        (save_put-IsLedger _ key _ file wr (delivered-Distinct text now file w h))

  report-IsLedger :
      (key text : List ℕ) (window : Option ℕ) (now : ℕ) (file : File Ledger) (w : W)
      → file.writable ≡ true
      → IsLedger file
      → IsLedger (report remind_seconds max_per_hour send key text window now file w).file
  unfolding report
  report-IsLedger key text window now file w wr h =
      let d = deliver max_per_hour (load empty_ledger file) send text now w in
      unless_told-file remind_seconds max_per_hour send IsLedger _ _ file w _ h (
        reported-IsLedger d.delivered d.state key (reported_entry now) file wr
          (delivered-Distinct text now file w h))

  -- No call puts a key in twice.
  pub perform-IsLedger :
      (t : ℕ) (c : Call) (file : File Ledger) (w : W)
      → file.writable ≡ true
      → IsLedger file
      → IsLedger (perform remind_seconds max_per_hour send t c file w).file
  unfolding perform opened outcome
  perform-IsLedger t (opened_call key text) file w wr h =
      unless_told-file remind_seconds max_per_hour send IsLedger _ _ file w _ h
        (save_put-IsLedger _ key _ file wr (delivered-Distinct text t file w h))
  perform-IsLedger t (outcome_call key text fixed) file w wr h =
      outcome_entry-IsLedger _ fixed key text t file w wr h
  perform-IsLedger t (report_call key text window) file w wr h =
      report-IsLedger key text window t file w wr h
  perform-IsLedger t (prune_call age) file w wr h =
      subst Distinct (sym (items_of-prune age t file wr))
        (keep-Distinct (is_kept t age) (items_of file) h)
