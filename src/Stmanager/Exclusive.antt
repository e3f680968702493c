-- ===== src/Stmanager/Exclusive.antt =====
-- internal/stmanager/manager.go: one `Start` at a time, whatever the interleaving.
use we_sync.Base.{
  ℕ, true, false, ◌==◌, ◌≡◌, refl, sym, ap, ◌∙◌, inl, inr, Bool-cases, is_some, eqb→eq, eqb_self,
  if◌then◌else◌, arith, not_both,
}
use we_sync.Stmanager.{
  System, Input, update, thread_mem, thread_pc, step, Event, pick, exit, reaped, init, Reach, start,
  later,
}
use we_sync.Stmanager.Latch.{
  in_start, in_launch, in_launch-in_start, enter_lem, hold_lem, outside_lem, launch_lem, owned_lem,
  owned-reap, reap-running, reap-starting,
}

pub update_same {ℓ} :
    {A : Type ℓ} (f : ℕ → A) (i j : ℕ) (x : A) → (j == i) ≡ true → update f i x j ≡ x
unfolding update
update_same f i j x e = ap (λ b. if b then x else f j) e

pub update_other {ℓ} :
    {A : Type ℓ} (f : ℕ → A) (i j : ℕ) (x : A) → (j == i) ≡ false → update f i x j ≡ f j
unfolding update
update_other f i j x e = ap (λ b. if b then x else f j) e

-- Who may hold the latch, and what is true meanwhile.
pub record Exclusive (s : System) : Type 0 where
  pub latch : (i : ℕ) → in_start (s.pc i) ≡ true → s.mem.starting ≡ true
  pub unique : (i j : ℕ) → in_start (s.pc i) ≡ true → in_start (s.pc j) ≡ true → i ≡ j
  pub quiet : (i : ℕ) → in_launch (s.pc i) ≡ true → s.mem.running ≡ false
  pub owned : is_some s.mem.current ≡ true → s.mem.running ≡ true

module _ (s : System) (i : ℕ) (x : Input) (inv : Exclusive s) where
  moved : (j : ℕ) → (j == i) ≡ true → (step s (pick i x)).pc j ≡ thread_pc x s.mem (s.pc i)
  unfolding step
  moved j e = update_same s.pc i j _ e

  stayed : (j : ℕ) → (j == i) ≡ false → (step s (pick i x)).pc j ≡ s.pc j
  unfolding step
  stayed j e = update_other s.pc i j _ e

  -- Another thread in `Start` keeps the picked one outside.
  outside : (j : ℕ) → (j == i) ≡ false → in_start (s.pc j) ≡ true → in_start (s.pc i) ≡ false
  outside j e h = elim (Bool-cases (in_start (s.pc i))) [
    | inl k ↦ absurd (not_both (eqb_self i) (ap (λ t. t == i) (sym (inv.unique j i h k)) ∙ e))
    | inr k ↦ k
  ]

  -- and the latch is set, so that it stays outside.
  stays_outside :
      (j : ℕ)
      → (j == i) ≡ false
      → in_start (s.pc j) ≡ true
      → in_start (thread_pc x s.mem (s.pc i)) ≡ false
  stays_outside j e h = elim (Bool-cases (in_start (thread_pc x s.mem (s.pc i)))) [
    | inl k ↦ ground (arith, enter_lem x s.mem (s.pc i) k (outside j e h), inv.latch j h)
    | inr k ↦ k
  ]

  latch_kept :
      (j : ℕ)
      → in_start ((step s (pick i x)).pc j) ≡ true
      → (thread_mem x s.mem (s.pc i)).starting ≡ true
  latch_kept j h = elim (Bool-cases (j == i)) [
    | inl e ↦ hold_lem x s.mem (s.pc i) (ap in_start (sym (moved j e)) ∙ h) (inv.latch i)
    | inr e ↦
        let k : in_start (s.pc j) ≡ true = ap in_start (sym (stayed j e)) ∙ h in
        (outside_lem x s.mem (s.pc i) (outside j e k)).0 (inv.latch j k)
  ]

  alone :
      (j : ℕ)
      → (j == i) ≡ false
      → in_start ((step s (pick i x)).pc j) ≡ true
      → in_start (thread_pc x s.mem (s.pc i)) ≡ false
  alone j e h = stays_outside j e (ap in_start (sym (stayed j e)) ∙ h)

  unique_kept :
      (j k : ℕ)
      → in_start ((step s (pick i x)).pc j) ≡ true
      → in_start ((step s (pick i x)).pc k) ≡ true
      → j ≡ k
  unique_kept j k h l = elim (Bool-cases (j == i)) [
    | inl e ↦ elim (Bool-cases (k == i)) [
      | inl d ↦ eqb→eq j i e ∙ sym (eqb→eq k i d)
      | inr d ↦ absurd (not_both (ap in_start (sym (moved j e)) ∙ h) (alone k d l))
    ]
    | inr e ↦ elim (Bool-cases (k == i)) [
      | inl d ↦ absurd (not_both (ap in_start (sym (moved k d)) ∙ l) (alone j e h))
      | inr d ↦
          inv.unique j k (ap in_start (sym (stayed j e)) ∙ h) (ap in_start (sym (stayed k d)) ∙ l)
    ]
  ]

  quiet_kept :
      (j : ℕ)
      → in_launch ((step s (pick i x)).pc j) ≡ true
      → (thread_mem x s.mem (s.pc i)).running ≡ false
  quiet_kept j h = elim (Bool-cases (j == i)) [
    | inl e ↦ launch_lem x s.mem (s.pc i) (ap in_launch (sym (moved j e)) ∙ h) (inv.quiet i)
    | inr e ↦
        let k : in_launch (s.pc j) ≡ true = ap in_launch (sym (stayed j e)) ∙ h in
        (outside_lem x s.mem (s.pc i) (outside j e (in_launch-in_start (s.pc j) k))).1
          (inv.quiet j k)
  ]

pub pick-Exclusive : (s : System) (i : ℕ) (x : Input) → Exclusive s → Exclusive (step s (pick i x))
unfolding step
pick-Exclusive s i x inv = record {
  latch = latch_kept s i x inv;
  unique = unique_kept s i x inv;
  quiet = quiet_kept s i x inv;
  owned = owned_lem x s.mem (s.pc i) inv.owned;
}

pub step-Exclusive : (s : System) (e : Event) → Exclusive s → Exclusive (step s e)
unfolding step
step-Exclusive s (pick i x) inv = pick-Exclusive s i x inv
step-Exclusive s (exit c) inv = record {
  latch = inv.latch;
  unique = inv.unique;
  quiet = inv.quiet;
  owned = inv.owned;
}
step-Exclusive s (reaped c) inv = record {
  latch = λ i h. reap-starting s.mem c ∙ inv.latch i h;
  unique = inv.unique;
  quiet = λ i h. reap-running s.mem c (inv.quiet i h);
  owned = owned-reap s.mem c inv.owned;
}

-- In every state that an interleaving of `Start`, `Stop`, the exits of processes and the reapers
-- leads to: a thread inside `Start` has the latch set, two threads inside `Start` are the same,
-- `running` is false as long as a thread has not recorded its launched process, and a recorded
-- process means `running`.
pub reach-Exclusive : {s : System} → Reach s → Exclusive s
unfolding init in_start in_launch
reach-Exclusive start = record {
  latch = λ i h. ground (arith, h);
  unique = λ i j h k. ground (arith, h);
  quiet = λ i h. refl;
  owned = λ h. ground (arith, h);
}
reach-Exclusive (later r e) = step-Exclusive _ e (reach-Exclusive r)

-- Whatever the interleaving, two threads are never inside `Start` at once: the latch serialises
-- them.
pub start_exclusion :
    {s : System} → Reach s → (i j : ℕ) → in_start (s.pc i) ≡ true → in_start (s.pc j) ≡ true → i ≡ j
start_exclusion r i j = (reach-Exclusive r).unique i j
