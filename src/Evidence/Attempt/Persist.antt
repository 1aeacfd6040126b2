-- ===== src/Evidence/Attempt/Persist.antt =====
-- What stands in the stored delivery state while an attempt runs.
use virule_client.Prelude.{
  ℕ, String, ◌≡◌, ◌∙◌, sym, subst, inl, inr, List, [], ◌∷◌, true, false, not, ltb, ◌==◌, Bool-cases,
  contains, length,
}
use virule_client.Evidence.Json.{Json, JsonLaws}
use virule_client.Evidence.Core.{Core}
use virule_client.Evidence.Document.{State, normal-acked}
use virule_client.Evidence.Answer.{Transport}
use virule_client.Evidence.World.{World, Outside, load_state, save_state}
use virule_client.Evidence.World.Load.{load_state-save_state, load_state-note_change}
use virule_client.Evidence.Attempt.{
  Sending, merge, set_of, only_known, start, on_acked, on_all_acked,
}
use virule_client.Evidence.Attempt.Acked.{contains-set_of, only_known_sound}

module _ {j : Json} (c : Core j) (o : Outside j.Text) (t : Transport j.Text) (now : ℕ) where
  open j use {Text}

  -- What the attempt holds acknowledged stands in the stored delivery state.
  pub record IsPersisted (id : String) (s : Sending Text) : Type 0 where
    pub own_id : s.st.package_id ≡ id
    pub stored :
        (f : String)
        → contains s.merged f ≡ true
        → (f == "") ≡ false
        → contains (load_state c o s.world id).acked f ≡ true

  module _ (laws : JsonLaws j) (id : String) (hex : c.is_hex32 id ≡ true)
      (writes : (n : ℕ) → c.writes n ≡ true) where
    saved_acked :
        (st : State) (w : World Text) (f : String)
        → st.package_id ≡ id
        → (f == "") ≡ false
        → contains (load_state c o (save_state c o st w) id).acked f ≡ contains st.acked f
    saved_acked st w f e h =
        subst (λ k. contains (load_state c o (save_state c o st w) k).acked f ≡ contains st.acked f)
          e
          (rw
            (load_state-save_state c o laws st w (subst (λ k. c.is_hex32 k ≡ true) (sym e) hex)
              (writes w.steps))
            (normal-acked j c.is_hex32 st f h))

    start-IsPersisted :
        (known : List String) (st : State) (w : World Text)
        → st.package_id ≡ id
        → let (st1, w1) = start c o t now st w in
          IsPersisted id
            (record { st = st1; merged = set_of (only_known known st.acked); world = w1 })
    unfolding start
    start-IsPersisted known st w e = record {
      own_id = e;
      stored = λ f h k.
          saved_acked _ w f e k
          ∙ only_known_sound known st.acked f
              (sym (contains-set_of (only_known known st.acked) f) ∙ h);
    }

    on_acked-IsPersisted :
        (known names : List String) (s : Sending Text)
        → IsPersisted id s
        → IsPersisted id (on_acked c o t now known names s)
    unfolding on_acked
    on_acked-IsPersisted known names s h =
        elim (Bool-cases (
          not (
            ltb (length s.merged)
              (length (merge known names (s.merged, s.world.acked_files)).0)))) [
                | inl e ↦ rw e h
                | inr e ↦ rw e (record {
                  own_id = h.own_id;
                  stored =
                      λ f k l. load_state-note_change c o _ id f (saved_acked _ _ f h.own_id l ∙ k);
                })
              ]

    on_all_acked-IsPersisted :
        (known : List String) (reported : List (List String)) (s : Sending Text)
        → IsPersisted id s
        → IsPersisted id (on_all_acked c o t now known reported s)
    unfolding on_all_acked
    on_all_acked-IsPersisted known [] s h = h
    on_all_acked-IsPersisted known (names ∷ rest) s h =
        on_all_acked-IsPersisted known rest (on_acked c o t now known names s)
          (on_acked-IsPersisted known names s h)

    -- From the start of an attempt, after any reports of the transport: every named file that the attempt
    -- holds acknowledged is read back from the stored delivery state, where the writes are made.
    pub reports-IsPersisted :
        (known : List String) (reported : List (List String)) (st : State) (w : World Text)
        → st.package_id ≡ id
        → let (st1, w1) = start c o t now st w in
          IsPersisted id (
            on_all_acked c o t now known reported
              (record { st = st1; merged = set_of (only_known known st.acked); world = w1 }))
    reports-IsPersisted known reported st w e =
        on_all_acked-IsPersisted known reported _ (start-IsPersisted known st w e)
