-- ===== src/Evidence/Attempt/Acked.antt =====
-- The set of acknowledged files that an attempt keeps.
use virule_client.Prelude.{
  ℕ, String, ◌≡◌, ◌∙◌, sym, ltb, refl, inl, inr, List, [], ◌∷◌, ◌++◌, true, not, ◌&&◌, ◌||◌, arith,
  eq_iff, Bool-cases, contains, contains-insert, insert-Distinct, length, Distinct, Within,
}
use virule_client.Evidence.Json.{Json}
use virule_client.Evidence.Core.{Core}
use virule_client.Evidence.Answer.{Transport}
use virule_client.Evidence.World.{Outside}
use virule_client.Evidence.Attempt.{
  Sending, merge, merge_one, set_of, only_known, on_acked, on_all_acked,
}

-- Every name that the transport told, in one list.
pub names_of : List (List String) → List String
names_of [] = []
names_of (names ∷ rest) = names ++ names_of rest

pub contains-append :
    (xs ys : List String) (f : String) → contains (xs ++ ys) f ≡ (contains xs f || contains ys f)
unfolding contains
contains-append [] ys f = refl
contains-append (x ∷ xs) ys f = ground (arith, contains-append xs ys f)

pub contains-set_of : (xs : List String) (f : String) → contains (set_of xs) f ≡ contains xs f
unfolding contains set_of
contains-set_of [] f = refl
contains-set_of (x ∷ xs) f = ground (arith, contains-insert x f (set_of xs), contains-set_of xs f)

set_of-Distinct : (xs : List String) → Distinct (set_of xs)
unfolding set_of
set_of-Distinct [] = tt
set_of-Distinct (x ∷ xs) = insert-Distinct x (set_of xs) (set_of-Distinct xs)

only_known-Within : (known xs : List String) → Within (only_known known xs) known
unfolding only_known contains
only_known-Within known [] f h = ground arith
only_known-Within known (x ∷ xs) f h = ground (arith, only_known-Within known xs f, eq_iff x f)

pub only_known_sound :
    (known xs : List String) (f : String)
    → contains (only_known known xs) f ≡ true
    → contains xs f ≡ true
unfolding only_known contains
only_known_sound known [] f h = h
only_known_sound known (x ∷ xs) f h = ground (arith, only_known_sound known xs f)

-- The merged set is a set of the package's own files, which grows by names that were told.
pub record IsMerged (known told : List String) (start merged : List String) : Type 0 where
  pub distinct : Distinct merged
  pub within : Within merged known
  pub sound : (f : String) → contains merged f ≡ true → (contains start f || contains told f) ≡ true
  pub grows : (f : String) → contains start f ≡ true → contains merged f ≡ true

in_head : (a : String) (names : List String) → contains (a ∷ names) a ≡ true
unfolding contains
in_head a names = ground (arith, eq_iff a a)

in_tail :
    (a : String) (names : List String) (f : String)
    → contains names f ≡ true
    → contains (a ∷ names) f ≡ true
unfolding contains
in_tail a names f h = ground arith

merge_one-IsMerged :
    (known told start : List String) (a : String) (m : List String × ℕ)
    → IsMerged known told start m.0
    → contains told a ≡ true
    → IsMerged known told start (merge_one known a m).0
unfolding merge_one
merge_one-IsMerged known told start a m h w =
    elim (Bool-cases (contains known a && not (contains m.0 a))) [
      | inl e ↦ rw e (record {
        distinct = insert-Distinct a m.0 h.distinct;
        within = λ f k. ground (arith, contains-insert a f m.0, h.within f, eq_iff a f);
        sound = λ f k. ground (arith, contains-insert a f m.0, h.sound f, eq_iff a f);
        grows = λ f k. ground (arith, contains-insert a f m.0, h.grows f k);
      })
      | inr e ↦ rw e h
    ]

pub merge-IsMerged :
    (known told start names : List String) (m : List String × ℕ)
    → IsMerged known told start m.0
    → Within names told
    → IsMerged known told start (merge known names m).0
unfolding merge
merge-IsMerged known told start [] m h w = h
merge-IsMerged known told start (a ∷ names) m h w =
    merge-IsMerged known told start names (merge_one known a m)
      (merge_one-IsMerged known told start a m h (w a (in_head a names)))
      (λ f k. w f (in_tail a names f k))

pub set_of-IsMerged :
    (known told xs : List String)
    → IsMerged known told (only_known known xs) (set_of (only_known known xs))
set_of-IsMerged known told xs = record {
  distinct = set_of-Distinct (only_known known xs);
  within = λ f h. only_known-Within known xs f (sym (contains-set_of (only_known known xs) f) ∙ h);
  sound = λ f h. ground (arith, contains-set_of (only_known known xs) f);
  grows = λ f h. contains-set_of (only_known known xs) f ∙ h;
}

module _ {j : Json} (c : Core j) (o : Outside j.Text) (t : Transport j.Text) (now : ℕ) where
  open j use {Text}

  on_acked-IsMerged :
      (known told start names : List String) (s : Sending Text)
      → IsMerged known told start s.merged
      → Within names told
      → IsMerged known told start (on_acked c o t now known names s).merged
  unfolding on_acked
  on_acked-IsMerged known told start names s h w =
      elim (Bool-cases (
        not
          (ltb (length s.merged) (length (merge known names (s.merged, s.world.acked_files)).0)))) [
            | inl e ↦ rw e h
            | inr e ↦
                rw e (merge-IsMerged known told start names (s.merged, s.world.acked_files) h w)
          ]

  pub on_all_acked-IsMerged :
      (known told start : List String) (reported : List (List String)) (s : Sending Text)
      → IsMerged known told start s.merged
      → Within (names_of reported) told
      → IsMerged known told start (on_all_acked c o t now known reported s).merged
  unfolding on_all_acked names_of
  on_all_acked-IsMerged known told start [] s h w = h
  on_all_acked-IsMerged known told start (names ∷ rest) s h w =
      on_all_acked-IsMerged known told start rest (on_acked c o t now known names s)
        (on_acked-IsMerged known told start names s h
          (λ f k. w f (ground (arith, contains-append names (names_of rest) f))))
        (λ f k. w f (ground (arith, contains-append names (names_of rest) f)))
