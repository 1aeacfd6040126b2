-- ===== src/Transfers/Removal/Own.antt =====
-- When a removal touches a game (src/client/transfers.hpp, run_removal).
use virule_client.Prelude.{
  ◌≡◌, ◌≢◌, refl, ◌⊎◌, inl, inr, none, true, false, if_branches, eq_iff, arith,
}
use virule_client.Evidence.Json.{Json}
use virule_client.Transfers.Job.{TransferJob, removed, is_at}
use virule_client.Transfers.Site.{Env}
use virule_client.Transfers.Outcome.{At, save_job, defer_job}
use virule_client.Transfers.Removal.{is_own_folder, finish_game_removal, remove_folder, run_removal}

module _ {j : Json} (e : Env j) where
  open j use {Text}
  open e use {Bytes}

  -- The folder that a job names is named by its game, directly inside the installs location.
  pub record IsOwnFolder (k : TransferJob) : Type 0 where
    pub is_named : k.install_dir ≢ ""
    pub has_root : k.install_root ≢ ""
    pub inside : e.parent_of k.install_dir ≡ k.install_root
    pub by_game : e.name_of k.install_dir ≡ k.game_uuid

  is_own_folder-IsOwnFolder : (k : TransferJob) → is_own_folder e k ≡ true → IsOwnFolder k
  is_own_folder-IsOwnFolder k h = record {
    is_named = λ n. ground (arith, h, n, eq_iff k.install_dir "");
    has_root = λ n. ground (arith, h, n, eq_iff k.install_root "");
    inside = ground (arith, h, eq_iff (e.parent_of k.install_dir) k.install_root);
    by_game = ground (arith, h, eq_iff (e.name_of k.install_dir) k.game_uuid);
  }

  -- What a removal has done to the game's folder, and what it says of it.
  pub record IsOwnRemoval (s t : At Text Bytes) : Type 0 where
    pub touched :
        (t.site.game ≡ s.site.game)
        ⊎ (IsOwnFolder s.job × (e.busy s.site.steps s.job.assignment_id ≡ false))
    pub done :
        is_at s.job.state removed ≡ false
        → is_at t.job.state removed ≡ true
        → (t.site.game ≡ none) ⊎ (is_own_folder e s.job ≡ false)

  -- A removal touches the game's folder only if it is the job's own, named by its game and directly
  -- inside the installs location, and the game did not run when it was asked; a removal that fails may
  -- leave a part of it. A job that was not removed counts as removed only if that folder is gone, or
  -- was not the job's own.
  pub run_removal-IsOwnRemoval : (s : At Text Bytes) → IsOwnRemoval s (run_removal e s)
  unfolding run_removal remove_folder finish_game_removal defer_job save_job
  run_removal-IsOwnRemoval s =
      if_branches (IsOwnRemoval s) (e.busy s.site.steps s.job.assignment_id)
        (λ _. record { touched = inl refl; done = λ n r. ground (arith, n, r) })
        (λ b.
          if_branches (IsOwnRemoval s) (is_own_folder e s.job)
            (λ o.
              let own : IsOwnFolder s.job = is_own_folder-IsOwnFolder s.job o in
              if_branches (IsOwnRemoval s) (e.removes s.site.steps)
                (λ _. record { touched = inr (own, b); done = λ n r. inl refl })
                (λ _. record { touched = inr (own, b); done = λ n r. ground (arith, n, r) }))
            (λ o. record { touched = inl refl; done = λ n r. inr o }))
