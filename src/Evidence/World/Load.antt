-- ===== src/Evidence/World/Load.antt =====
-- What load_state reads of what save_state wrote.
use virule_client.Prelude.{
  String, ◌≡◌, refl, Option, none, some, true, arith, eq_iff, lookup, contains, lookup-put,
}
use virule_client.Evidence.Json.{Json, JsonLaws}
use virule_client.Evidence.Core.{Core}
use virule_client.Evidence.Document.{
  State, state_json, parse_state, normal, normal-package_id, parse-state_json, state_json_nonempty,
}
use virule_client.Evidence.World.{
  World, Outside, note_change, load_state, save_state, own, read_document,
}

own-package_id : (id : String) (s : Option State) → (own id s).package_id ≡ id
unfolding own
own-package_id id none = refl
own-package_id id (some s) = ground (arith, eq_iff s.package_id id)

module _ {j : Json} (c : Core j) (o : Outside j.Text) where
  open j use {Text}

  -- The state is always the package's own: a document of another package counts as none.
  pub load_state-package_id : (w : World Text) (id : String) → (load_state c o w id).package_id ≡ id
  unfolding load_state
  load_state-package_id w id = ground (
    arith,
    own-package_id id (parse_state j c.is_hex32 (read_document c o (lookup id w.delivery))),
  )

  pub load_state-note_change :
      (w : World Text) (id f : String)
      → contains (load_state c o w id).acked f ≡ true
      → contains (load_state c o (note_change c o w) id).acked f ≡ true
  unfolding load_state note_change
  load_state-note_change w id f h = h

  module _ (laws : JsonLaws j) where
    pub load_state-save_state :
        (s : State) (w : World Text)
        → c.is_hex32 s.package_id ≡ true
        → c.writes w.steps ≡ true
        → load_state c o (save_state c o s w) s.package_id ≡ normal j c.is_hex32 s
    unfolding load_state save_state
    load_state-save_state s w h k = ground (
      arith,
      lookup-put s.package_id s.package_id (state_json j s) w.delivery,
      eq_iff s.package_id s.package_id,
      state_json_nonempty j laws s,
      parse-state_json j c.is_hex32 laws s h,
      normal-package_id j c.is_hex32 s,
    )
