-- ===== src/Peerwire/Sending/Timeout.antt =====
-- How long a send and a dial can take.
use we_sync.Base.{
  ℕ, zero, suc, ◌-◌, ◌+◌, ◌*◌, ◌≤◌, Bool, true, false, List, [], ◌∷◌, length, ◌≡◌, arith,
}
use we_sync.Peerwire.Sending.{
  Sent, still_trying, Round, retry_wait, shorter, send_sync, Dial, dial_each,
}

abbrev pub is_trying : Sent → Bool
is_trying still_trying = true
is_trying _ = false

-- A send that is given time for `n` waits ends within `n + 1` rounds, whatever the rounds meet and however
-- long the writes take.
pub send_sync-ends :
    (n timeout : ℕ) (r : Round) (rs : List Round)
    → length rs ≡ n
    → timeout ≤ n * retry_wait
    → is_trying (send_sync (r ∷ rs) timeout) ≡ false
unfolding send_sync
send_sync-ends zero timeout r rs l h = ground (arith, h)
send_sync-ends (suc n) timeout r [] l h = ground (arith, l)
send_sync-ends (suc n) timeout r (q ∷ rs) l h = ground (
  arith,
  h,
  l,
  send_sync-ends n (timeout - (r.spent + shorter retry_wait timeout)) q rs (omega (arith, l)),
)

dial_each-bounded : (limit : ℕ) (ds : List Dial) → (dial_each limit ds).1 ≤ length ds * limit
unfolding dial_each
dial_each-bounded limit [] = omega arith
dial_each-bounded limit (d ∷ ds) = ground (arith, dial_each-bounded limit ds)
