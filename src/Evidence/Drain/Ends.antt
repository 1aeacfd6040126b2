-- ===== src/Evidence/Drain/Ends.antt =====
-- How the wait for undelivered evidence ends.
use virule_client.Prelude.{
  ℕ, zero, suc, ◌+◌, ◌≤◌, ◌≡◌, ◌∙◌, sym, subst, refl, Option, some, true, false, arith, eqb, length,
  if_branches,
}
use virule_client.Evidence.Drain.{
  DrainEnd, Look, Watch, minus_u64, has_moved, noted, rewake, has_stalled, wait_on,
  drain_owned_outbox,
}

-- The look sees what the wait knows: as many packages, as many acknowledged files, the same counter.
pub record IsQuiet (l : Look) (pending acked counter : ℕ) : Type 0 where
  pub same_pending : length l.pending ≡ pending
  pub same_acked : l.acked ≡ acked
  pub same_counter : l.counter ≡ counter

module _ (stall_ms rewake_ms : ℕ) where
  -- The wait ended.
  abbrev pub HasEnded : Option (DrainEnd × Watch) → Type 0
  HasEnded r = (e : DrainEnd × Watch) × (r ≡ some e)

  has_moved_quiet :
      (l : Look) (s : Watch)
      → IsQuiet l (length s.pending) s.acked s.counter
      → has_moved l s ≡ false
  unfolding has_moved
  has_moved_quiet l s h = ground (arith, h.same_pending, h.same_acked, h.same_counter)

  rewake_keeps :
      (t : ℕ) (s : Watch)
      → (((rewake stall_ms rewake_ms t s).pending ≡ s.pending)
          × ((rewake stall_ms rewake_ms t s).last_progress ≡ s.last_progress))
        × (((rewake stall_ms rewake_ms t s).acked ≡ s.acked)
            × ((rewake stall_ms rewake_ms t s).counter ≡ s.counter))
  unfolding rewake
  rewake_keeps t s = ground arith

  noted_quiet :
      (l : Look) (s : Watch)
      → IsQuiet l (length s.pending) s.acked s.counter
      → (noted l s).last_progress ≡ s.last_progress
  unfolding noted
  noted_quiet l s h = ground (arith, has_moved_quiet l s h)

  -- One more poll with a quiet look.
  module _ (look : ℕ → Look) (p a k since : ℕ) where
    record IsAt (s : Watch) : Type 0 where
      pub at_pending : length s.pending ≡ p
      pub at_acked : s.acked ≡ a
      pub at_counter : s.counter ≡ k
      pub at_progress : s.last_progress ≡ since

    IsQuiet-here :
        (l : Look) (s : Watch)
        → IsAt s
        → IsQuiet l p a k
        → IsQuiet l (length s.pending) s.acked s.counter
    IsQuiet-here l s h q = record {
      same_pending = q.same_pending ∙ sym h.at_pending;
      same_acked = q.same_acked ∙ sym h.at_acked;
      same_counter = q.same_counter ∙ sym h.at_counter;
    }

    noted-IsAt : (l : Look) (s : Watch) → IsAt s → IsQuiet l p a k → IsAt (noted l s)
    unfolding noted
    noted-IsAt l s h q = record {
      at_pending = q.same_pending;
      at_acked = q.same_acked;
      at_counter = q.same_counter;
      at_progress = noted_quiet l s (IsQuiet-here l s h q) ∙ h.at_progress;
    }

    rewake-IsAt : (t : ℕ) (s : Watch) → IsAt s → IsAt (rewake stall_ms rewake_ms t s)
    unfolding rewake
    rewake-IsAt t s h = record {
      at_pending = ground (arith, h.at_pending);
      at_acked = ground (arith, h.at_acked);
      at_counter = ground (arith, h.at_counter);
      at_progress = ground (arith, h.at_progress);
    }

    has_stalled_at :
        (t : ℕ) (s : Watch)
        → IsAt s
        → stall_ms ≤ minus_u64 t since
        → has_stalled stall_ms rewake_ms t s ≡ true
    unfolding has_stalled
    has_stalled_at t s h e = rw h.at_progress (ground (arith, e))

    wait_on-ends :
        (fuel n : ℕ) (s : Watch)
        → IsAt s
        → ((i : ℕ) → n ≤ i → IsQuiet (look i) p a k)
        → stall_ms ≤ minus_u64 (look (n + fuel)).tick since
        → HasEnded (wait_on stall_ms rewake_ms (suc fuel) look n s)
    unfolding wait_on
    wait_on-ends zero n s h q e =
        if_branches HasEnded (eqb (length (look n).pending) 0) (λ _. (_, refl))
          (λ _.
            if_branches HasEnded (has_stalled stall_ms rewake_ms (look n).tick (noted (look n) s))
              (λ _. (_, refl))
              (λ d. absurd (
                ground (
                  arith,
                  d,
                  has_stalled_at (look n).tick (noted (look n) s)
                      (noted-IsAt (look n) s h (q n (omega arith)))
                      (subst (λ m. stall_ms ≤ minus_u64 (look m).tick since) (omega arith) e),
                ))))
    wait_on-ends (suc fuel) n s h q e =
        if_branches HasEnded (eqb (length (look n).pending) 0) (λ _. (_, refl))
          (λ _.
            if_branches HasEnded (has_stalled stall_ms rewake_ms (look n).tick (noted (look n) s))
              (λ _. (_, refl))
              (λ _.
                wait_on-ends fuel (suc n) _
                  (rewake-IsAt (look n).tick _ (noted-IsAt (look n) s h (q n (omega arith))))
                  (λ i g. q i (omega (arith, g)))
                  (subst (λ m. stall_ms ≤ minus_u64 (look m).tick since) (omega arith) e)))

  -- A wait during which nothing moves ends: with as many polls as reach the stall window, it gives
  -- a result.
  pub drain_owned_outbox-ends :
      (fuel : ℕ) (look : ℕ → Look)
      → ((i : ℕ)
          → 1 ≤ i
          → IsQuiet (look i) (length (look 0).pending) (look 0).acked (look 0).counter)
      → stall_ms ≤ minus_u64 (look (1 + fuel)).tick (look 0).tick
      → HasEnded (drain_owned_outbox stall_ms rewake_ms (suc fuel) look)
  unfolding drain_owned_outbox
  drain_owned_outbox-ends fuel look q e =
      if_branches HasEnded (eqb (length (look 0).pending) 0) (λ _. (_, refl))
        (λ _.
          wait_on-ends look (length (look 0).pending) (look 0).acked (look 0).counter (look 0).tick
            fuel 1 _
            (record { at_pending = refl; at_acked = refl; at_counter = refl; at_progress = refl }) q
            e)
