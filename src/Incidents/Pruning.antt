-- ===== src/Incidents/Pruning.antt =====
-- agent/incidents.py: what `prune` forgets.
use srechat.Prelude.{
  ℕ, ◌+◌, ◌≡◌, refl, sym, ap, ◌∙◌, zero, suc, ltb, Option, none, Bool, true, some, List, [], ◌∷◌,
  arith, all, keep, length, length-keep-le,
}
use srechat.Disk.{File, load, load-save}
use srechat.Dict
use srechat.Incidents.{Ledger, Entry, Status, still_open, resolved, empty_ledger, is_kept, prune}
use srechat.Incidents.Once.{entry_of}

abbrev Item : Type 0
Item = List ℕ × Entry

pub lookup-keep :
    (p : Entry → Bool) (key : List ℕ) (e : Entry) (items : List Item)
    → Dict.lookup key items ≡ some e
    → p e ≡ true
    → Dict.lookup key (keep (λ (item : Item). p item.1) items) ≡ some e
unfolding Dict.lookup
lookup-keep p key e [] h k = cc
lookup-keep p key e ((j, x) ∷ items) h k = ground (arith, lookup-keep p key e items)

all-keep : (p : Item → Bool) (items : List Item) → all p (keep p items) ≡ true
all-keep p [] = refl
all-keep p (x ∷ items) = ground (arith, all-keep p items)

abbrev pub items_of : File Ledger → List (List ℕ × Entry)
items_of file = (load empty_ledger file).incidents.items

pub items_of-prune :
    (max_age now : ℕ) (file : File Ledger)
    → file.writable ≡ true
    → items_of (prune max_age now file).1
      ≡ keep (λ (item : Item). is_kept now max_age item.1) (items_of file)
unfolding prune
items_of-prune max_age now file wr =
    ap (λ (l : Ledger). l.incidents.items) (load-save empty_ledger _ file wr)

-- Whether an entry outlives `prune`: an open one always; a closed one for `max_age` seconds from its
-- closing, or from its opening where no closing was noted, or for now where neither was.
abbrev pub remembered : ℕ → ℕ → Status → Option ℕ → ℕ → Bool
remembered now max_age still_open closed_at opened_at = true
remembered now max_age resolved (some (suc t)) opened_at = ltb now (suc t + max_age)
remembered now max_age resolved (some zero) (suc t) = ltb now (suc t + max_age)
remembered now max_age resolved none (suc t) = ltb now (suc t + max_age)
remembered now max_age resolved (some zero) zero = ltb 0 max_age
remembered now max_age resolved none zero = ltb 0 max_age

abbrev pub stays : ℕ → ℕ → Entry → Bool
stays now max_age e = remembered now max_age e.status e.closed_at e.opened_at

at_once : (now max_age : ℕ) → ltb now (now + max_age) ≡ ltb 0 max_age
at_once now max_age = ground arith

kept_as :
    (now max_age : ℕ) (status : Status) (closed_at : Option ℕ) (opened_at : ℕ) (e : Entry)
    → e.status ≡ status
    → e.closed_at ≡ closed_at
    → e.opened_at ≡ opened_at
    → is_kept now max_age e ≡ remembered now max_age status closed_at opened_at
kept_as now max_age still_open closed_at opened_at e a b c = rw a refl
kept_as now max_age resolved (some (suc t)) opened_at e a b c = rw (a, b) (ground arith)
kept_as now max_age resolved (some zero) (suc t) e a b c = rw (a, b, c) (ground arith)
kept_as now max_age resolved none (suc t) e a b c = rw (a, b, c) (ground arith)
kept_as now max_age resolved (some zero) zero e a b c =
    rw (a, b, c) (ground (arith, at_once now max_age))
kept_as now max_age resolved none zero e a b c = rw (a, b, c) (ground (arith, at_once now max_age))

is_kept-stays : (now max_age : ℕ) (e : Entry) → is_kept now max_age e ≡ stays now max_age e
is_kept-stays now max_age e = kept_as now max_age e.status e.closed_at e.opened_at e refl refl refl

all-stays :
    (now max_age : ℕ) (items : List Item)
    → all (λ (item : Item). is_kept now max_age item.1) items
      ≡ all (λ (item : Item). stays now max_age item.1) items
all-stays now max_age [] = refl
all-stays now max_age ((key, e) ∷ items) =
    rw (is_kept-stays now max_age e, all-stays now max_age items) refl

-- With a ledger that can be written, `prune` keeps every entry that is open, was closed less than
-- `max_age` ago, or, where it has no time of closing, was opened less than `max_age` ago, with nothing
-- in it changed; it keeps no other, but one with neither time where `max_age` is positive; and it
-- returns the number of entries that it forgot.
pub prune_lem :
    (max_age now : ℕ) (file : File Ledger)
    → file.writable ≡ true
    → let (forgotten, file') = prune max_age now file in
      ((key : List ℕ) (e : Entry)
        → entry_of key file ≡ some e
        → stays now max_age e ≡ true
        → entry_of key file' ≡ some e)
      × (all (λ (item : List ℕ × Entry). stays now max_age item.1) (items_of file') ≡ true)
      × (forgotten + length (items_of file') ≡ length (items_of file))
unfolding prune Dict.get
prune_lem max_age now file wr =
    let p = λ (item : Item). is_kept now max_age item.1 in
    let e = items_of-prune max_age now file wr in
    (
      λ key x h k.
          ap (Dict.lookup key) e
          ∙ lookup-keep (is_kept now max_age) key x (items_of file) h
              (is_kept-stays now max_age x ∙ k),
      sym (all-stays now max_age (items_of (prune max_age now file).1))
          ∙ ap (all p) e
          ∙ all-keep p (items_of file),
      omega (arith, ap (length {A = Item}) e, length-keep-le p (items_of file)),
    )
