-- ===== src/Peerwire/Lifecycle/Tests.antt =====
-- A connection that is closed while it dials.
use we_sync.Base.{ℕ, zero, suc, ◌+◌, ◌≤◌, ◌≡◌, refl, inl, inr, true, List, [], ◌∷◌, All, arith}
use we_sync.Peerwire.Lifecycle.{
  ended, new_peer_conn, Step, closes, advances, dial_ends, read_closed, writer_closes,
  writer_cancelled, pinger_stops, wait_done, step, run, close, advance, dial_ended,
}
use we_sync.Peerwire.Lifecycle.Sound.{is_bare}
use we_sync.Peerwire.Lifecycle.Ends.{IsRound, concat, closed-ends}

abbrev closed_in_dial : List Step
closed_in_dial = advances ∷ closes ∷ []

-- The dial ends well all the same, and the Hello is sent.
late_hello :
    (run new_peer_conn closed_in_dial).done ≡ true
    × ((run
          (run new_peer_conn closed_in_dial)
          (dial_ends true ∷ advances ∷ advances ∷ advances ∷ [])).hellos
        ≡ 1)
unfolding run step close advance dial_ended new_peer_conn
late_hello = (refl, refl)

abbrev round : List Step
round =
    advances
    ∷ read_closed
    ∷ writer_closes
    ∷ writer_cancelled
    ∷ pinger_stops
    ∷ wait_done
    ∷ dial_ends true
    ∷ []

round-IsRound : IsRound round
round-IsRound = (
  inl refl,
  inr (inl refl),
  inr (inr (inl refl)),
  inr (inr (inr (inl refl))),
  inr (inr (inr (inr (inl refl)))),
  inr (inr (inr (inr (inr (inl refl))))),
  inl (inr (inr (inr (inr (inr (inr (inl refl))))))),
)

abbrev rounds : ℕ → List (List Step)
rounds zero = []
rounds (suc n) = round ∷ rounds n

rounds-IsRound : (n : ℕ) → All IsRound (rounds n)
rounds-IsRound zero = tt
rounds-IsRound (suc n) = (round-IsRound, rounds-IsRound n)

closed-ends_example :
    let c = run (run new_peer_conn closed_in_dial) (concat (rounds 16)) in
    (c.phase ≡ ended)
    × (is_bare c ≡ true)
    × (c.hellos ≤ (run new_peer_conn closed_in_dial).hellos + 1)
unfolding run step close advance new_peer_conn
closed-ends_example = closed-ends closed_in_dial (rounds 16) refl (rounds-IsRound 16) (ground arith)
