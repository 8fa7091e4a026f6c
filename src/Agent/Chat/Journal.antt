-- ===== src/Agent/Chat/Journal.antt =====
-- agent/sre_agent.py: what the journal of the tools holds after any number of calls.
use mathlib.Core.List.{append_assoc}
use srechat.Prelude.{
  ℕ, zero, suc, ◌+◌, ◌-◌, ◌≤◌, ◌≡◌, sym, ap, ◌∙◌, List, [], ◌∷◌, ◌++◌, map, arith, length, take,
  drop, length-append, append-nil, refl,
}
use srechat.Agent.Chat.{newest, entry_of, journal}

drop-append :
    (k j : ℕ) (xs ys : List (List ℕ))
    → k ≤ length xs
    → drop j (drop k xs ++ ys) ≡ drop (k + j) (xs ++ ys)
drop-append zero j xs ys h = ap (λ (n : ℕ). drop n (xs ++ ys)) (omega arith)
drop-append (suc k) j [] ys h = absurd (omega (arith, h))
drop-append (suc k) j (x ∷ xs) ys h =
    drop-append k j xs ys (omega (arith, h)) ∙ ap (λ (n : ℕ). drop n (x ∷ (xs ++ ys))) (suc_add k j)
  where
    suc_add : (k j : ℕ) → suc (k + j) ≡ suc k + j
    suc_add k j = omega arith

length-drop : (k : ℕ) (xs : List (List ℕ)) → length (drop k xs) ≡ length xs - k
length-drop zero xs = omega arith
length-drop (suc k) [] = omega arith
length-drop (suc k) (x ∷ xs) = omega (arith, length-drop k xs)

newest-newest :
    (limit : ℕ) (xs ys : List (List ℕ))
    → newest limit (newest limit xs ++ ys) ≡ newest limit (xs ++ ys)
unfolding newest
newest-newest limit xs ys =
    let k = length xs - limit in
    let j = length (drop k xs ++ ys) - limit in
    drop-append k j xs ys (omega arith)
    ∙ ap (λ (n : ℕ). drop n (xs ++ ys))
        (omega (arith, length-append (drop k xs) ys, length-append xs ys, length-drop k xs))

-- A call of a tool: the time, the tool, its argument and its output.
pub record Call : Type 0 where
  pub stamp : List ℕ
  pub tool : List ℕ
  pub arg : List ℕ
  pub output : List ℕ

abbrev pub entry_of_call : Call → List ℕ
entry_of_call c = entry_of c.stamp c.tool c.arg c.output

abbrev pub journal_calls : List Call → List (List ℕ) → List (List ℕ)
journal_calls [] entries = entries
journal_calls (c ∷ calls) entries =
    journal_calls calls (journal c.stamp c.tool c.arg c.output entries)

length-newest : (limit : ℕ) (xs : List (List ℕ)) → length (newest limit xs) ≤ limit
unfolding newest
length-newest limit xs = omega (arith, length-drop (length xs - limit) xs)

newest-short : (limit : ℕ) (xs : List (List ℕ)) → length xs ≤ limit → newest limit xs ≡ xs
unfolding newest
newest-short limit xs h = ap (λ (n : ℕ). drop n xs) (zero_of (length xs) limit h)
  where
    zero_of : (n limit : ℕ) → n ≤ limit → n - limit ≡ 0
    zero_of n limit h = omega (arith, h)

journal_calls-newest :
    (calls : List Call) (entries : List (List ℕ))
    → length entries ≤ 200
    → journal_calls calls entries ≡ newest 200 (entries ++ map entry_of_call calls)
unfolding journal
journal_calls-newest [] entries h =
    sym (newest-short 200 (entries ++ []) (rw (append-nil entries) h) ∙ append-nil entries)
journal_calls-newest (c ∷ calls) entries h =
    let e = entry_of_call c in
    let all_entries = entries ++ e ∷ [] in
    journal_calls-newest calls (newest 200 all_entries) (length-newest 200 all_entries)
    ∙ newest-newest 200 all_entries (map entry_of_call calls)
    ∙ ap (newest 200) (append_assoc entries (e ∷ []) (map entry_of_call calls))

take-append-drop : (n : ℕ) (xs : List (List ℕ)) → take n xs ++ drop n xs ≡ xs
take-append-drop zero xs = refl
take-append-drop (suc n) [] = refl
take-append-drop (suc n) (x ∷ xs) = ap (λ (l : List (List ℕ)). x ∷ l) (take-append-drop n xs)

-- After any calls of tools, from a journal of 200 entries at most, the journal holds the newest 200 of
-- what was there and what came, in order, or all of them where they are fewer: what was forgotten is the
-- oldest entries, as many as there are more than 200, and the rest is the journal.
pub journal_calls_lem :
    (calls : List Call) (entries : List (List ℕ))
    → length entries ≤ 200
    → let all_entries = entries ++ map entry_of_call calls in
      take (length all_entries - 200) all_entries ++ journal_calls calls entries ≡ all_entries
unfolding newest
journal_calls_lem calls entries h =
    let all_entries = entries ++ map entry_of_call calls in
    let k = length all_entries - 200 in
    ap (λ (l : List (List ℕ)). take k all_entries ++ l) (journal_calls-newest calls entries h)
    ∙ take-append-drop k all_entries
