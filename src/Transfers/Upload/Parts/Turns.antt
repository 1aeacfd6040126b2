-- ===== src/Transfers/Upload/Parts/Turns.antt =====
-- What one turn of the loop of send_parts (src/client/transfers.hpp) sends, and where it goes on.
use virule_client.Prelude.{
  ℕ, suc, zero, ◌+◌, ◌≤◌, ◌<◌, ◌≡◌, refl, ◌⊎◌, inl, inr, sym, subst, Option-cases, String, List, [],
  ◌∷◌, some, not, ◌&&◌, ◌||◌, eqb, leb, if_branches, leb→le, eq_iff, arith, ◌==◌,
}
use Prim.Native.String.{◌++◌ as join}
use virule_client.Evidence.Json.{Json}
use virule_client.Transfers.Site.{Env, ServiceCall, Reply, no_body, json, octets, Verification}
use virule_client.Transfers.Outcome.{At, tick, save_job, defer_job, fail_job, call, body_code}
use virule_client.Transfers.Calls.{Adds, nothing, one_more}
use virule_client.Transfers.Upload.Session.{has_part, reopen, advance}
use virule_client.Transfers.Upload.Parts.{
  Turned, leaves, goes_to, count, part_of, arrived, renew, renewal_of, sending_of, send_again,
  told_part, send_part, compare_part, part_turn,
}

module _ {j : Json} (e : Env j) (v : Verification) where
  open j use {Text}
  open e use {Bytes}

  -- A call that sends bytes sends a part whose digest, as it was computed, is the verified one.
  abbrev pub IsVerifiedPart : ServiceCall Text Bytes → Type 0
  IsVerifiedPart q = elim q.body [
    | no_body ↦ Unit
    | json _ ↦ Unit
    | octets part sha md5 ↦
        (n : ℕ) × (k : ℕ) × (sid : String) × (q.path
          ≡ join (join (join "/v1/evaluations/uploads/" sid) "/parts/") (e.to_string n))
        × (part_of v.part_sha256 n ≡ some sha)
        × (e.sha256_hex k part ≡ sha)
  ]

  abbrev pub Sends : At Text Bytes → At Text Bytes → Type 0
  Sends s s1 = Adds IsVerifiedPart s.site.sent s1.site.sent

  -- A renewal was answered 200, at this call or a later one.
  abbrev pub IsRenewed : ℕ → Type 0
  IsRenewed k =
      (m : ℕ) × (s : At Text Bytes) × (k ≤ m) × ((e.reply m (renewal_of e v s)).status ≡ 200)

  -- Where the loop goes on: at the next part, at the same one again, or at the first.
  pub record Advances (n tries : ℕ) (s : At Text Bytes) (m t : ℕ) (s1 : At Text Bytes)
      : Type 0 where
    pub later : s.site.steps < s1.site.steps
    pub is_part : n ≤ count v.part_sha256
    pub moves :
        ((m ≡ n + 1) × (t ≤ tries))
        ⊎ (((m ≡ n) × (t ≡ tries + 1) × (t ≤ 3)) ⊎ ((m ≡ 1) × (t ≡ tries) × IsRenewed s.site.steps))

  abbrev pub Turns : ℕ → ℕ → At Text Bytes → Turned Text Bytes → Type 0
  Turns n tries s (leaves t) = Sends s t.at
  Turns n tries s (goes_to m t s1) = Sends s s1 × Advances n tries s m t s1

  part_of-count : (hs : List String) (n : ℕ) (h : String) → part_of hs n ≡ some h → n ≤ count hs
  unfolding part_of count
  part_of-count [] n g p = ground arith
  part_of-count (h ∷ hs) zero g p = omega arith
  part_of-count (h ∷ hs) (suc zero) _ p = omega arith
  part_of-count (h ∷ hs) (suc (suc n)) g p =
      let r = part_of-count hs (suc n) g p in omega (arith, r)

  -- After the calls that were made of a turn.
  module _ (n tries : ℕ) (h : n ≤ count v.part_sha256) (s s1 : At Text Bytes) (a : Sends s s1)
      (l : s.site.steps < s1.site.steps) where
    renew-Turns : Turns n tries s (renew e v tries s1)
    unfolding renew call save_job defer_job reopen
    renew-Turns =
        if_branches (Turns n tries s) (eqb (e.reply s1.site.steps (renewal_of e v s1)).status 200)
          (λ r. (
            one_more (renewal_of e v s1) s1.site.sent tt a,
            record {
              later = omega (arith, l);
              is_part = h;
              moves =
                  inr (inr (refl, refl, (s1.site.steps, s1, omega (arith, l), ground (arith, r))));
            },
          ))
          (λ _.
            if_branches (Turns n tries s)
              (eqb (e.reply s1.site.steps (renewal_of e v s1)).status 404)
              (λ _. one_more (renewal_of e v s1) s1.site.sent tt a)
              (λ _. one_more (renewal_of e v s1) s1.site.sent tt a))

    send_again-Turns : Turns n tries s (send_again e v n tries s1)
    unfolding send_again defer_job save_job
    send_again-Turns =
        if_branches (Turns n tries s) (leb (tries + 1) 3)
          (λ r. (
            a,
            record {
              later = l;
              is_part = h;
              moves = inr (inl (refl, refl, leb→le (tries + 1) 3 r));
            },
          ))
          (λ _. a)

    told_part-Turns : (r : Reply Text) → Turns n tries s (told_part e v n tries r s1)
    unfolding told_part arrived reopen advance fail_job defer_job save_job
    told_part-Turns r =
        if_branches (Turns n tries s) (eqb r.status 200)
          (λ _.
            (a, record { later = omega (arith, l); is_part = h; moves = inl (refl, omega arith) }))
          (λ _.
            if_branches (Turns n tries s) (eqb r.status 409 && (body_code e r.body == "integrity"))
              (λ _. send_again-Turns)
              (λ _.
                if_branches (Turns n tries s) (eqb r.status 410) (λ _. renew-Turns)
                  (λ _.
                    if_branches (Turns n tries s) (eqb r.status 404) (λ _. a)
                      (λ _.
                        if_branches (Turns n tries s)
                          (eqb r.status 409 && (body_code e r.body == "conflict")) (λ _. a)
                          (λ _.
                            if_branches (Turns n tries s) (eqb r.status 400 || eqb r.status 403)
                              (λ _. a) (λ _. a))))))

  compare_part-Turns :
      (n tries : ℕ) (known : String) (part : Bytes) (s s1 : At Text Bytes)
      → part_of v.part_sha256 n ≡ some known
      → s1.site.sent ≡ s.site.sent
      → s.site.steps ≤ s1.site.steps
      → Turns n tries s (compare_part e v n tries known part s1)
  unfolding compare_part defer_job fail_job save_job send_part call
  compare_part-Turns n tries known part s s1 p same l =
      let sha : String = e.sha256_hex s1.site.steps part in
      let md5 : String = e.md5_hex s1.site.steps part in
      let old : Sends s s1 =
        subst (λ (sent : List (ServiceCall Text Bytes)). Adds IsVerifiedPart s.site.sent sent)
          (sym same) nothing in
      if_branches (Turns n tries s) ((sha == "") || (md5 == "")) (λ _. old)
        (λ _.
          if_branches (Turns n tries s) (not (sha == known)) (λ _. old)
            (λ ne.
              told_part-Turns n tries (part_of-count v.part_sha256 n known p) s
                (call e (sending_of e v n part sha md5 (tick e s1)) (tick e s1))
                (one_more (sending_of e v n part sha md5 (tick e s1)) s1.site.sent
                  (
                    n,
                    s1.site.steps,
                    s1.job.session_id,
                    refl,
                    ground (arith, p, ne, eq_iff sha known),
                    refl,
                  )
                  old)
                (omega (arith, l)) _))

  pub part_turn-Turns :
      (n tries : ℕ) (s : At Text Bytes) → Turns n tries s (part_turn e v n tries s)
  unfolding part_turn defer_job save_job advance
  part_turn-Turns n tries s = elim (Option-cases (part_of v.part_sha256 n)) [
    | inl none_left ↦ rw (none_left, part_turn) nothing
    | inr (known, p) ↦
        rw (p, part_turn)
          (if_branches (Turns n tries s) (e.stops s.site.steps) (λ _. nothing)
            (λ _.
              if_branches (Turns n tries s) (has_part n s.job.parts_done)
                (λ _. (
                  nothing,
                  record {
                    later = omega arith;
                    is_part = part_of-count v.part_sha256 n known p;
                    moves = inl (refl, omega arith);
                  },
                ))
                (λ _. elim (Option-cases (e.read_part s.site.steps s.job.package_path n)) [
                  | inl unread ↦ rw unread nothing
                  | inr (part, q) ↦
                      rw q (compare_part-Turns n tries known part s (tick e s) p refl (omega arith))
                ])))
  ]
