-- ===== src/Evidence/Drain/Since.antt =====
-- What the wait for undelivered evidence says when it ends.
use virule_client.Prelude.{
  ℕ, zero, suc, ◌≤◌, ◌<◌, ◌≡◌, ◌≢◌, subst, refl, ◌⊎◌, inl, inr, Option, none, some, true, false,
  Bool-cases, ltb, arith, eqb, length, if_branches, leb→le,
}
use virule_client.Evidence.Drain.{
  DrainEnd, nothing_owned, stalled, all_delivered, Look, Watch, minus_u64, has_moved, noted, rewake,
  has_stalled, wait_on, drain_owned_outbox,
}

-- From one look to the next a package was delivered, a file was acknowledged, or the counter changed.
abbrev pub Moves : Look → Look → Type 0
Moves l k = (length k.pending < length l.pending) ⊎ ((l.acked < k.acked) ⊎ (k.counter ≢ l.counter))

abbrev pub IsStill : Look → Look → Type 0
IsStill l k =
    (length l.pending ≤ length k.pending) × ((k.acked ≤ l.acked) × (k.counter ≡ l.counter))

-- The m-th look is the last one, up to the i-th, at which something had moved, or the first of all.
pub record IsSince (look : ℕ → Look) (m i : ℕ) : Type 0 where
  pub not_after : m ≤ i
  pub moved : (m ≡ 0) ⊎ ((q : ℕ) × (m ≡ suc q) × Moves (look q) (look m))
  pub still : (k : ℕ) → m ≤ k → k < i → IsStill (look k) (look (suc k))

-- What a result says of the looks.
abbrev pub Explains : ℕ → (ℕ → Look) → DrainEnd × Watch → Type 0
Explains stall_ms look (nothing_owned, s) = length (look 0).pending ≡ 0
Explains stall_ms look (all_delivered, s) = (i : ℕ) × (length (look i).pending ≡ 0)
Explains stall_ms look (stalled, s) =
    (i : ℕ) × (m : ℕ) × (length (look i).pending ≢ 0)
    × IsSince look m i
    × (stall_ms ≤ minus_u64 (look i).tick (look m).tick)

module _ (stall_ms rewake_ms : ℕ) (look : ℕ → Look) where
  -- What the wait knows after the i-th look.
  record Knows (i : ℕ) (s : Watch) : Type 0 where
    pub last : ℕ
    pub since : IsSince look last i
    pub progress : s.last_progress ≡ (look last).tick
    pub pending : length s.pending ≡ length (look i).pending
    pub acked : s.acked ≡ (look i).acked
    pub counter : s.counter ≡ (look i).counter

  rewake-Knows : (i t : ℕ) (s : Watch) → Knows i s → Knows i (rewake stall_ms rewake_ms t s)
  unfolding rewake
  rewake-Knows i t s h = record {
    last = h.last;
    since = h.since;
    progress = ground (arith, h.progress);
    pending = ground (arith, h.pending);
    acked = ground (arith, h.acked);
    counter = ground (arith, h.counter);
  }

  has_moved-Moves :
      (i : ℕ) (s : Watch)
      → Knows i s
      → has_moved (look (suc i)) s ≡ true
      → Moves (look i) (look (suc i))
  unfolding has_moved
  has_moved-Moves i s h b = ground (arith, b, h.pending, h.acked, h.counter)

  has_moved-IsStill :
      (i : ℕ) (s : Watch)
      → Knows i s
      → has_moved (look (suc i)) s ≡ false
      → IsStill (look i) (look (suc i))
  unfolding has_moved
  has_moved-IsStill i s h b =
      (ground (arith, b, h.pending), (ground (arith, b, h.acked), ground (arith, b, h.counter)))

  noted-Knows : (i : ℕ) (s : Watch) → Knows i s → Knows (suc i) (noted (look (suc i)) s)
  unfolding noted
  noted-Knows i s h = elim (Bool-cases (has_moved (look (suc i)) s)) [
    | inl b ↦ record {
      last = suc i;
      since = record {
        not_after = omega arith;
        moved = inr (i, refl, has_moved-Moves i s h b);
        still = λ k a c. absurd (omega (arith, a, c));
      };
      progress = ground (arith, b);
      pending = refl;
      acked = refl;
      counter = refl;
    }
    | inr b ↦ record {
      last = h.last;
      since = record {
        not_after = omega (arith, h.since.not_after);
        moved = h.since.moved;
        still = λ k a c. elim (Bool-cases (ltb k i)) [
          | inl d ↦ h.since.still k a (ground (arith, d))
          | inr d ↦
              subst (λ n. IsStill (look n) (look (suc n))) (ground (arith, c, d))
                (has_moved-IsStill i s h b)
        ];
      };
      progress = ground (arith, b, h.progress);
      pending = refl;
      acked = refl;
      counter = refl;
    }
  ]

  abbrev Explained : Option (DrainEnd × Watch) → Type 0
  Explained none = Unit
  Explained (some r) = Explains stall_ms look r

  stalled_at :
      (i : ℕ) (s : Watch)
      → Knows i s
      → length (look i).pending ≢ 0
      → has_stalled stall_ms rewake_ms (look i).tick s ≡ true
      → Explains stall_ms look (stalled, s)
  unfolding has_stalled
  stalled_at i s h n d = (
    i,
    h.last,
    n,
    h.since,
    subst (λ t. stall_ms ≤ minus_u64 (look i).tick t) h.progress (leb→le _ _ d),
  )

  wait_on-Explains :
      (fuel i : ℕ) (s : Watch)
      → Knows i s
      → Explained (wait_on stall_ms rewake_ms fuel look (suc i) s)
  unfolding wait_on
  wait_on-Explains zero i s h = tt
  wait_on-Explains (suc fuel) i s h =
      let next : Watch = noted (look (suc i)) s in
      if_branches Explained (eqb (length (look (suc i)).pending) 0)
        (λ e. (suc i, ground (arith, e)))
        (λ e.
          if_branches Explained (has_stalled stall_ms rewake_ms (look (suc i)).tick next)
            (stalled_at (suc i) next (noted-Knows i s h) (λ k. ground (arith, k, e)))
            (λ _.
              wait_on-Explains fuel (suc i) _
                (rewake-Knows (suc i) (look (suc i)).tick next (noted-Knows i s h))))

  -- The wait says that nothing is owned only if the first look saw no package, that all is delivered
  -- only if some look saw none, and that it stalled only at a look that saw a package, when the stall
  -- window had passed since the look that was the last at which something had moved: fewer packages,
  -- more acknowledged files or another counter than the look before it, or the first look of all.
  pub drain_owned_outbox-Explains :
      (fuel : ℕ) (r : DrainEnd × Watch)
      → drain_owned_outbox stall_ms rewake_ms fuel look ≡ some r
      → Explains stall_ms look r
  unfolding drain_owned_outbox
  drain_owned_outbox-Explains fuel r h = subst Explained h (
      if_branches Explained (eqb (length (look 0).pending) 0) (λ e. ground (arith, e))
        (λ _. wait_on-Explains fuel 0 _ (record {
          last = 0;
          since = record {
            not_after = omega arith;
            moved = inl refl;
            still = λ k a c. absurd (omega (arith, c));
          };
          progress = refl;
          pending = refl;
          acked = refl;
          counter = refl;
        })))
