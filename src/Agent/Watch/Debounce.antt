-- ===== src/Agent/Watch/Debounce.antt =====
-- agent/sre_agent.py: how many bad looks make a region news.
use srechat.Prelude.{
  ℕ, suc, ◌+◌, ◌<◌, ◌≡◌, refl, sym, ap, subst, ◌∙◌, Bool, true, false, ◌&&◌, Option, none, some,
  List, [], ◌∷◌, arith, ltb, ◌==◌, length, Bool-cases, inl, inr,
}
use srechat.Text.{text_eq_refl}
use srechat.Dict
use srechat.Dict.{Dict, get-put}
use srechat.Agent.Watch.{
  Watch, RegionLook, region_key, from_known, transition, after_transition, debounced,
  debounced_look, watch_region,
}

-- A look whose probe answered, and one whose probe did not, by an agent that is primary or not.
abbrev pub good_look : RegionLook → RegionLook
good_look look = record look { probe = true }

abbrev pub bad_look : RegionLook → Bool → RegionLook
bad_look look is_primary = record look { probe = false; is_primary = is_primary }

module _ (fails_to_alert flap_window flaps_to_report owner_grace own : ℕ)
    (is_open : List ℕ → Bool) where
  abbrev pub look_at : RegionLook → ℕ → Watch → Watch
  look_at look now s =
      (watch_region fails_to_alert flap_window flaps_to_report owner_grace own is_open look now s).1

  pub record HasStatus (key : List ℕ) (up : Bool) (before s : Watch) : Type 0 where
    pub status : Dict.get s.status key ≡ some up
    pub streak : s.fail_streak ≡ before.fail_streak

  get-set : (key : List ℕ) (up : Bool) (d : Dict Bool) → Dict.get (Dict.put d key up) key ≡ some up
  get-set key up d = rw (get-put d key key up, text_eq_refl key) refl

  known-HasStatus :
      (was : Option Bool) (key : List ℕ) (up : Bool) (up_msg down_msg : List ℕ) (email : Bool)
      (now : ℕ) (s : Watch)
      → Dict.get s.status key ≡ was
      → HasStatus key up s
          (from_known flap_window flaps_to_report is_open was key up up_msg down_msg email now s).1
  known-HasStatus none key up up_msg down_msg email now s h = record {
    status = get-set key up s.status;
    streak = refl;
  }
  known-HasStatus (some true) key true up_msg down_msg email now s h = record {
    status = h;
    streak = refl;
  }
  known-HasStatus (some false) key false up_msg down_msg email now s h = record {
    status = h;
    streak = refl;
  }
  known-HasStatus (some true) key false up_msg down_msg email now s h = record {
    status = get-set key false s.status;
    streak = refl;
  }
  known-HasStatus (some false) key true up_msg down_msg email now s h = record {
    status = get-set key true s.status;
    streak = refl;
  }

  after-HasStatus :
      (look : RegionLook) (ok up : Bool) (now : ℕ) (before s : Watch)
      → HasStatus (region_key look.index) up before s
      → HasStatus
          (region_key look.index)
          up
          before
          (after_transition fails_to_alert flap_window flaps_to_report owner_grace own is_open look
            ok now s).1
  after-HasStatus look true up now before s h = record { status = h.status; streak = h.streak }
  after-HasStatus look false up now before s h = elim (Bool-cases (look.index == own)) [
    | inl e ↦ rw e (record { status = h.status; streak = h.streak })
    | inr e ↦ rw e (record { status = h.status; streak = h.streak })
  ]

  pub look-HasStatus :
      (look : RegionLook) (now : ℕ) (ok : Bool) (s : Watch)
      → HasStatus
          (region_key look.index)
          ok
          s
          (debounced_look fails_to_alert flap_window flaps_to_report owner_grace own is_open look
            now
            (ok, s)).1
  unfolding transition
  look-HasStatus look now true s =
      after-HasStatus look true true now s _
        (known-HasStatus _ (region_key look.index) true look.up_msg look.down_msg _ now s refl)
  look-HasStatus look now false s = elim (Bool-cases look.is_primary) [
    | inl e ↦ rw e (
        after-HasStatus look false false now s _
          (known-HasStatus _ (region_key look.index) false look.up_msg look.down_msg _ now s refl))
    | inr e ↦
        rw e (record { status = get-set (region_key look.index) false s.status; streak = refl })
  ]

  -- The state after `n` bad looks in a row that followed a good one.
  record IsAfter (key : List ℕ) (n : ℕ) (s : Watch) : Type 0 where
    status : Dict.get s.status key ≡ some (ltb n fails_to_alert)
    streak : Dict.get s.fail_streak key ≡ some n

  get-streak : (key : List ℕ) (n : ℕ) (d : Dict ℕ) → Dict.get (Dict.put d key n) key ≡ some n
  get-streak key n d = rw (get-put d key key n, text_eq_refl key) refl

  ltb-suc :
      (n : ℕ) → (ltb (suc n) fails_to_alert && ltb n fails_to_alert) ≡ ltb (suc n) fails_to_alert
  ltb-suc n = ground arith

  from-HasStatus :
      {key : List ℕ} {up : Bool} {n : ℕ} {before s : Watch}
      → HasStatus key up before s
      → up ≡ ltb n fails_to_alert
      → Dict.get before.fail_streak key ≡ some n
      → IsAfter key n s
  from-HasStatus {key} h e k = record {
    status = h.status ∙ ap some e;
    streak = ap (λ (d : Dict ℕ). Dict.get d key) h.streak ∙ k;
  }

  good-IsAfter :
      (look : RegionLook) (now : ℕ) (s : Watch)
      → 0 < fails_to_alert
      → IsAfter (region_key look.index) 0 (look_at (good_look look) now s)
  unfolding watch_region debounced
  good-IsAfter look now s h =
      from-HasStatus (look-HasStatus (good_look look) now true _) (ground arith)
        (get-streak (region_key look.index) 0 s.fail_streak)

  debounced-bad :
      (key : List ℕ) (n : ℕ) (s : Watch)
      → Dict.get s.status key ≡ some (ltb n fails_to_alert)
      → Dict.get s.fail_streak key ≡ some n
      → debounced fails_to_alert key false s ≡ (
        ltb (suc n) fails_to_alert,
        record s { fail_streak = Dict.put s.fail_streak key (suc n) },
      )
  unfolding debounced
  debounced-bad key n s h k =
      rw (h, k)
        (ap (λ (b : Bool). (b, record s { fail_streak = Dict.put s.fail_streak key (suc n) }))
          (ltb-suc n))

  bad-IsAfter :
      (look : RegionLook) (p : Bool) (now n : ℕ) (s : Watch)
      → IsAfter (region_key look.index) n s
      → IsAfter (region_key look.index) (suc n) (look_at (bad_look look p) now s)
  unfolding watch_region
  bad-IsAfter look p now n s h =
      let key = region_key look.index in
      subst
        (λ (r : Bool × Watch).
          IsAfter key (suc n)
            (debounced_look fails_to_alert flap_window flaps_to_report owner_grace own is_open
              (bad_look look p) now r).1)
        (sym (debounced-bad key n s h.status h.streak))
        (from-HasStatus (look-HasStatus (bad_look look p) now (ltb (suc n) fails_to_alert) _) refl
          (get-streak key (suc n) s.fail_streak))

  -- Bad looks in a row, each at its time and with the agent primary or not.
  unfoldable pub bad_looks : RegionLook → List (ℕ × Bool) → Watch → Watch
  bad_looks look [] s = s
  bad_looks look ((now, p) ∷ times) s = bad_looks look times (look_at (bad_look look p) now s)

  one_more : (n m : ℕ) → suc n + m ≡ n + suc m
  one_more n m = omega arith

  bad_looks-IsAfter :
      (look : RegionLook) (times : List (ℕ × Bool)) (n : ℕ) (s : Watch)
      → IsAfter (region_key look.index) n s
      → IsAfter (region_key look.index) (n + length times) (bad_looks look times s)
  unfolding bad_looks
  bad_looks-IsAfter look [] n s h = subst (λ m. IsAfter (region_key look.index) m s) (same n) h
    where
      same : (n : ℕ) → n ≡ n + 0
      same n = omega arith
  bad_looks-IsAfter look ((now, p) ∷ times) n s h =
      subst
        (λ m.
          IsAfter (region_key look.index) m
            (bad_looks look times (look_at (bad_look look p) now s)))
        (one_more n (length times))
        (bad_looks-IsAfter look times (suc n) _ (bad-IsAfter look p now n s h))

  zero_first : (m : ℕ) → 0 + m ≡ m
  zero_first m = omega arith

  -- After a good look at a region and any bad looks in a row, whichever agent is primary, the region
  -- counts as up exactly while the bad looks are fewer than `FAILS_TO_ALERT`, which is positive.
  pub watch_region_debounce :
      (look : RegionLook) (now : ℕ) (times : List (ℕ × Bool)) (s : Watch)
      → 0 < fails_to_alert
      → Dict.get
          (bad_looks look times (look_at (good_look look) now s)).status
          (region_key look.index)
        ≡ some (ltb (length times) fails_to_alert)
  watch_region_debounce look now times s h =
      (bad_looks-IsAfter look times 0 (look_at (good_look look) now s)
        (good-IsAfter look now s h)).status
      ∙ ap (λ m. some (ltb m fails_to_alert)) (zero_first (length times))
