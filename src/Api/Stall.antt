-- ===== src/Api/Stall.antt =====
-- When a peer is shown as stalled.
use we_sync.Base.{
  ℕ, ◌+◌, ◌≤◌, ◌≡◌, refl, ◌⊎◌, inl, inr, Bool, true, false, List, [], ◌∷◌, Option, none, some,
  if◌then◌else◌, is_pos, is_below, arith, Bool-cases, Option-cases, sym, subst, ◌∙◌,
}
use we_sync.Api.Completion.{Progress, Completion, stall_after, last_progress_of, refresh_device}

-- What one refresh sees of a device in a folder.
pub record Look : Type 0 where
  pub now : ℕ
  pub connected : Bool
  pub comp : Option Completion

-- The progress after the looks, of which the newest comes first; an error forgets it.
unfoldable pub progress_of : List Look → Option Progress
unfolding refresh_device
progress_of [] = none
progress_of (l ∷ ls) =
    let prev = progress_of ls in
    elim l.comp [ none ↦ none | some c ↦ some (refresh_device l.now l.connected prev c).0 ]

-- Whether the newest look, which sees `c`, shows the device as stalled.
unfoldable pub shows_stalled : ℕ → Bool → Completion → List Look → Bool
unfolding refresh_device
shows_stalled now connected c ls = (refresh_device now connected (progress_of ls) c).1.stalled

-- From the time `since` on, each look has seen the device, and the bytes that it needs have not
-- fallen from one look to the next.
abbrev pub IsStuck : ℕ → ℕ → Completion → List Look → Type 0
IsStuck since now c [] = now ≡ since
IsStuck since now c (l ∷ ls) =
    (now ≡ since)
    ⊎ ((d : Completion) × (l.comp ≡ some d)
        × (is_below c.need_bytes d.need_bytes ≡ false)
        × IsStuck since l.now d ls)

last_progress_lost :
    (now : ℕ) (c : Completion) (l : Look) (ls : List Look)
    → l.comp ≡ none
    → last_progress_of now (progress_of (l ∷ ls)) c ≡ now
unfolding progress_of last_progress_of
last_progress_lost now c l ls h = rw h refl

last_progress_next :
    (now : ℕ) (c d : Completion) (l : Look) (ls : List Look)
    → l.comp ≡ some d
    → last_progress_of now (progress_of (l ∷ ls)) c ≡ (
        if is_below c.need_bytes d.need_bytes
        then now
        else last_progress_of l.now (progress_of ls) d)
unfolding progress_of last_progress_of refresh_device
last_progress_next now c d l ls h = rw h refl

-- The device has been stuck since the last progress.
last_progress-IsStuck :
    (now : ℕ) (c : Completion) (ls : List Look)
    → IsStuck (last_progress_of now (progress_of ls) c) now c ls
unfolding progress_of last_progress_of
last_progress-IsStuck now c [] = refl
last_progress-IsStuck now c (l ∷ ls) = elim (Option-cases l.comp) [
  | inl lost ↦ inl (sym (last_progress_lost now c l ls lost))
  | inr (d, h) ↦ elim (Bool-cases (is_below c.need_bytes d.need_bytes)) [
    | inl fell ↦ inl (sym (last_progress_next now c d l ls h ∙ (rw fell refl)))
    | inr kept ↦
        subst (λ since. IsStuck since now c (l ∷ ls))
          (sym (last_progress_next now c d l ls h ∙ (rw kept refl)))
          (inr (d, h, kept, last_progress-IsStuck l.now d ls))
  ]
]

-- A device is shown as stalled only if it is connected and needs bytes, and if for at least a minute
-- each look has got an answer and the bytes that it needs have not fallen from one look to the next.
pub shows_stalled-IsStuck :
    (now : ℕ) (connected : Bool) (c : Completion) (ls : List Look)
    → shows_stalled now connected c ls ≡ true
    → (connected ≡ true)
      × (is_pos c.need_bytes ≡ true)
      × ((since : ℕ) × IsStuck since now c ls × (since + stall_after ≤ now))
unfolding shows_stalled refresh_device
shows_stalled-IsStuck now connected c ls h = (
  ground (arith, h),
  ground (arith, h),
  (last_progress_of now (progress_of ls) c, last_progress-IsStuck now c ls, ground (arith, h)),
)
