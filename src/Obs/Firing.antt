-- ===== src/Obs/Firing.antt =====
-- When an alert of internal/primitives/obs/alerts.go fires.
use minicloud_platform.Prelude.{
  ℕ, ◌+◌, ◌<◌, ◌≡◌, refl, ap, ◌∙◌, inl, inr, Bool, true, false, ◌||◌, Option, none, some, List, [],
  ◌∷◌, arith, leb, ◌==◌, Bool-cases, All, Bytes,
}
use minicloud_platform.Obs.Alerts.{
  Alarm, quiet, settle, Numbers, AlertRule, settle_value, evaluate_rule, eval_expr,
  matches_threshold,
}

-- The state after a history of evaluations, listed from the newest on: their times, and whether the threshold was matched.
unfoldable pub state_after : ℕ → List (ℕ × Bool) → Alarm
unfolding settle
state_after for [] = quiet
state_after for ((now, m) ∷ h) = (settle now for m (state_after for h)).1

-- the times of the evaluations that matched since the last one that did not
abbrev pub streak : List (ℕ × Bool) → List ℕ
streak [] = []
streak ((t, false) ∷ h) = []
streak ((t, true) ∷ h) = t ∷ streak h

-- the time of the first of them, and zero if there is none
abbrev pub start : List ℕ → ℕ
start [] = 0
start (t ∷ []) = t
start (t ∷ u ∷ ts) = start (u ∷ ts)

-- one of the later ones is at least `for` behind `from`
abbrev pub lasted : ℕ → List ℕ → Bool
lasted limit [] = false
lasted limit (t ∷ []) = false
lasted limit (t ∷ u ∷ ts) = leb limit t || lasted limit (u ∷ ts)

streak_positive : (h : List (ℕ × Bool)) → All (λ x. 0 < x.0) h → All (λ t. 0 < t) (streak h)
streak_positive [] hs = tt
streak_positive ((t, false) ∷ h) hs = tt
streak_positive ((t, true) ∷ h) hs = (hs.0, streak_positive h hs.1)

start_positive : (t : ℕ) (ts : List ℕ) → All (λ t. 0 < t) (t ∷ ts) → 0 < start (t ∷ ts)
start_positive t [] hs = hs.0
start_positive t (u ∷ ts) hs = start_positive u ts hs.1

-- The alarm of a streak.
abbrev alarm_of : ℕ → List ℕ → Alarm
alarm_of for ts = record { firing = lasted (start ts + for) ts; pending_since = start ts }

-- a match when the alert is pending or firing
pending :
    (for now p : ℕ) (b : Bool)
    → 0 < p
    → (settle now for true (record { firing = b; pending_since = p })).1
      ≡ record { firing = leb (p + for) now || b; pending_since = p }
unfolding settle
pending for now p true h = elim (Bool-cases (leb (p + for) now)) [
  | inl q ↦ rw (q) refl
  | inr q ↦ rw (q) refl
]
pending for now p false h =
    let z : (p == 0) ≡ false = ground (arith, h) in
    elim (Bool-cases (leb (p + for) now)) [ inl q ↦ rw (z, q) refl | inr q ↦ rw (z, q) refl ]

matched :
    (for now : ℕ) (ts : List ℕ)
    → All (λ t. 0 < t) ts
    → (settle now for true (alarm_of for ts)).1 ≡ alarm_of for (now ∷ ts)
unfolding settle
matched for now [] hs = refl
matched for now (t ∷ ts) hs =
    pending for now (start (t ∷ ts)) (lasted (start (t ∷ ts) + for) (t ∷ ts))
      (start_positive t ts hs)

state_after-streak :
    (for : ℕ) (h : List (ℕ × Bool))
    → All (λ x. 0 < x.0) h
    → state_after for h ≡ alarm_of for (streak h)
unfolding state_after
state_after-streak for [] hs = refl
state_after-streak for ((now, true) ∷ h) hs =
    ap (λ st. (settle now for true st).1) (state_after-streak for h hs.1)
    ∙ matched for now (streak h) (streak_positive h hs.1)
state_after-streak for ((now, false) ∷ h) hs = refl

module _ (n : Numbers) (r : AlertRule) where
  -- The state of a rule after a history of evaluations, listed from the newest on: their times, and the
  -- snapshots of the metrics.
  unfoldable pub evaluated : List (ℕ × List (Bytes × n.F)) → Alarm
  unfolding evaluate_rule
  evaluated [] = quiet
  evaluated ((now, ms) ∷ h) = (evaluate_rule n now r ms (evaluated h)).1

  -- the evaluations at which the expression had a value, and whether it matched the threshold
  abbrev pub noted : ℕ → Option n.F → List (ℕ × Bool) → List (ℕ × Bool)
  noted now none h = h
  noted now (some v) h = (now, matches_threshold n r.expression v) ∷ h

  abbrev pub observed : List (ℕ × List (Bytes × n.F)) → List (ℕ × Bool)
  observed [] = []
  observed ((now, ms) ∷ h) = noted now (eval_expr n r.expression ms) (observed h)

  noted_positive :
      (now : ℕ) (o : Option n.F) (h : List (ℕ × Bool))
      → 0 < now
      → All (λ x. 0 < x.0) h
      → All (λ x. 0 < x.0) (noted now o h)
  noted_positive now none h p hs = hs
  noted_positive now (some v) h p hs = (p, hs)

  observed_positive :
      (h : List (ℕ × List (Bytes × n.F))) → All (λ x. 0 < x.0) h → All (λ x. 0 < x.0) (observed h)
  observed_positive [] hs = tt
  observed_positive ((now, ms) ∷ h) hs =
      noted_positive now (eval_expr n r.expression ms) (observed h) hs.0 (observed_positive h hs.1)

  settled :
      (now : ℕ) (o : Option n.F) (h : List (ℕ × Bool))
      → (settle_value n now r o (state_after r.for_at_least h)).1
        ≡ state_after r.for_at_least (noted now o h)
  unfolding state_after
  settled now none h = refl
  settled now (some v) h = refl

  evaluated-observed :
      (h : List (ℕ × List (Bytes × n.F))) → evaluated h ≡ state_after r.for_at_least (observed h)
  unfolding evaluated state_after
  evaluated-observed [] = refl
  evaluated-observed ((now, ms) ∷ h) =
      let o = eval_expr n r.expression ms in
      ap (λ st. (settle_value n now r o st).1) (evaluated-observed h) ∙ settled now o (observed h)

  -- At positive times a rule fires exactly if its threshold was matched by all evaluations with a
  -- value from one on up to the newest, and one of them was later than the first by the duration of
  -- the rule or more; the rule is pending since the first of them.
  pub evaluated_lem :
      (h : List (ℕ × List (Bytes × n.F)))
      → All (λ x. 0 < x.0) h
      → let ts = streak (observed h) in
        ((evaluated h).firing ≡ lasted (start ts + r.for_at_least) ts)
        × ((evaluated h).pending_since ≡ start ts)
  evaluated_lem h hs =
      let e =
        evaluated-observed h
        ∙ state_after-streak r.for_at_least (observed h) (observed_positive h hs) in
      (ap (λ st. st.firing) e, ap (λ st. st.pending_since) e)
