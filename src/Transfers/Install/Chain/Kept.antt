-- ===== src/Transfers/Install/Chain/Kept.antt =====
-- The documents of a ticket and of a credential, against the answers that they copy (src/client/transfers.hpp,
-- ensure_launch_chain).
use virule_client.Prelude.{
  ◌≡◌, refl, ◌∙◌, subst, String, [], ◌∷◌, Option, none, some, ◌&&◌, if◌then◌else◌, lookup, eq_iff,
  arith, ◌==◌,
}
use virule_client.Evidence.Json.{Json, JsonLaws, get_string}
use virule_client.Transfers.Site.{Env}
use virule_client.Transfers.Install.Chain.{
  Ticket, Credential, Asked, and_then, ticket_for, read_ticket, credential_for, read_credential,
  ticket_doc, credential_doc,
}

module _ (j : Json) where
  open j use {Text}

  -- A member that the answer has, and that was stored as it was.
  pub record IsCopied (given kept : Text) (k : String) : Type 0 where
    pub value : String
    pub is_given : get_string j given k ≡ some value
    pub is_kept : get_string j kept k ≡ some value

  pub record IsTicketOf (a : Asked) (evaluator : String) (given kept : Text) : Type 0 where
    pub of_assignment : get_string j given "assignment_id" ≡ some a.assignment_id
    pub of_evaluator : get_string j given "evaluator_id" ≡ some evaluator
    pub copied :
        IsCopied given kept "assignment_id"
        × (IsCopied given kept "evaluator_id"
            × (IsCopied given kept "game_uuid"
                × (IsCopied given kept "accepted_utc" × IsCopied given kept "signature")))
    pub placed :
        (get_string j kept "install_path" ≡ some a.install_dir)
        × ((get_string j kept "launch_exe" ≡ some a.launch_exe)
            × (get_string j kept "revision_id" ≡ some a.revision_id))

  pub record IsCredentialOf (evaluator machine : String) (given kept : Text) : Type 0 where
    pub of_evaluator : get_string j given "evaluator_id" ≡ some evaluator
    pub of_machine : get_string j given "machine_key" ≡ some machine
    pub copied :
        IsCopied given kept "evaluator_id"
        × (IsCopied given kept "machine_key"
            × (IsCopied given kept "bound_utc" × IsCopied given kept "signature"))

and_then-some :
    {A B : Type 0} (o : Option A) (f : A → Option B) (b : B)
    → and_then o f ≡ some b
    → (a : A) × (o ≡ some a) × (f a ≡ some b)
and_then-some none f b h = absurd (ground (arith, h))
and_then-some (some a) f b h = (a, refl, h)

module _ {j : Json} (e : Env j) (laws : JsonLaws j) where
  open j use {Text, member, as_string}

  get_ticket :
      (a : Asked) (k : Ticket) (m v : String)
      → lookup m (
          ("version", j.number 1)
          ∷ ("assignment_id", j.quote k.assignment_id)
          ∷ ("evaluator_id", j.quote k.evaluator_id)
          ∷ ("game_uuid", j.quote k.game_uuid)
          ∷ ("accepted_utc", j.quote k.accepted_utc)
          ∷ ("signature", j.quote k.signature)
          ∷ ("install_path", j.quote a.install_dir)
          ∷ ("launch_exe", j.quote a.launch_exe)
          ∷ ("revision_id", j.quote a.revision_id)
          ∷ [])
        ≡ some (j.quote v)
      → get_string j (ticket_doc e a k) m ≡ some v
  unfolding ticket_doc
  get_ticket a k m v h =
      rw (laws.member_line _ m ∙ laws.member_object _ m ∙ h, get_string) (laws.string_quote v)

  get_credential :
      (c : Credential) (m v : String)
      → lookup m (
          ("version", j.number 1)
          ∷ ("evaluator_id", j.quote c.evaluator_id)
          ∷ ("machine_key", j.quote c.machine_key)
          ∷ ("bound_utc", j.quote c.bound_utc)
          ∷ ("signature", j.quote c.signature)
          ∷ [])
        ≡ some (j.quote v)
      → get_string j (credential_doc e c) m ≡ some v
  unfolding credential_doc
  get_credential c m v h =
      rw (laws.member_line _ m ∙ laws.member_object _ m ∙ h, get_string) (laws.string_quote v)

  -- The ticket that an answer holds has its members.
  abbrev IsRead : Text → Ticket → Type 0
  IsRead raw k =
      (get_string j raw "assignment_id" ≡ some k.assignment_id)
      × ((get_string j raw "evaluator_id" ≡ some k.evaluator_id)
          × ((get_string j raw "game_uuid" ≡ some k.game_uuid)
              × ((get_string j raw "accepted_utc" ≡ some k.accepted_utc)
                  × (get_string j raw "signature" ≡ some k.signature))))

  read_ticket-IsRead : (raw : Text) (k : Ticket) → read_ticket e raw ≡ some k → IsRead raw k
  unfolding read_ticket
  read_ticket-IsRead raw k h =
      go (get_string j raw "assignment_id") (get_string j raw "evaluator_id")
        (get_string j raw "game_uuid") (get_string j raw "accepted_utc")
        (get_string j raw "signature") h
    where
      go :
          (a b c d f : Option String)
          → and_then a (λ aid. and_then b (λ evid. and_then c (λ guid. and_then d (λ acc.
            and_then f (λ sig. some (record {
              assignment_id = aid;
              evaluator_id = evid;
              game_uuid = guid;
              accepted_utc = acc;
              signature = sig;
            }))))))
            ≡ some k
          → (a ≡ some k.assignment_id)
            × ((b ≡ some k.evaluator_id)
                × ((c ≡ some k.game_uuid) × ((d ≡ some k.accepted_utc) × (f ≡ some k.signature))))
      go (some a) (some b) (some c) (some d) (some f) h = ground (arith, h)
      go none _ _ _ _ h = absurd (ground (arith, h))
      go (some a) none _ _ _ h = absurd (ground (arith, h))
      go (some a) (some b) none _ _ h = absurd (ground (arith, h))
      go (some a) (some b) (some c) none _ h = absurd (ground (arith, h))
      go (some a) (some b) (some c) (some d) none h = absurd (ground (arith, h))

  abbrev IsBound : Text → Credential → Type 0
  IsBound raw c =
      (get_string j raw "evaluator_id" ≡ some c.evaluator_id)
      × ((get_string j raw "machine_key" ≡ some c.machine_key)
          × ((get_string j raw "bound_utc" ≡ some c.bound_utc)
              × (get_string j raw "signature" ≡ some c.signature)))

  read_credential-IsBound :
      (raw : Text) (c : Credential) → read_credential e raw ≡ some c → IsBound raw c
  unfolding read_credential
  read_credential-IsBound raw k h =
      go (get_string j raw "evaluator_id") (get_string j raw "machine_key")
        (get_string j raw "bound_utc") (get_string j raw "signature") h
    where
      go :
          (a b c d : Option String)
          → and_then a (λ cev. and_then b (λ ckey. and_then c (λ bound. and_then d (λ csig.
            some (record {
              evaluator_id = cev;
              machine_key = ckey;
              bound_utc = bound;
              signature = csig;
            })))))
            ≡ some k
          → (a ≡ some k.evaluator_id)
            × ((b ≡ some k.machine_key) × ((c ≡ some k.bound_utc) × (d ≡ some k.signature)))
      go (some a) (some b) (some c) (some d) h = ground (arith, h)
      go none _ _ _ h = absurd (ground (arith, h))
      go (some a) none _ _ h = absurd (ground (arith, h))
      go (some a) (some b) none _ h = absurd (ground (arith, h))
      go (some a) (some b) (some c) none h = absurd (ground (arith, h))

  copied_ticket :
      (a : Asked) (k : Ticket) (raw : Text)
      → IsRead raw k
      → IsTicketOf j
          (record a { assignment_id = k.assignment_id })
          k.evaluator_id
          raw
          (ticket_doc e a k)
  unfolding lookup
  copied_ticket a k raw (assignment, (evaluator, (game, (accepted, signed)))) = record {
    of_assignment = assignment;
    of_evaluator = evaluator;
    copied = (
      record {
        value = k.assignment_id;
        is_given = assignment;
        is_kept = get_ticket a k "assignment_id" k.assignment_id refl;
      },
      (
        record {
          value = k.evaluator_id;
          is_given = evaluator;
          is_kept = get_ticket a k "evaluator_id" k.evaluator_id refl;
        },
        (
          record {
            value = k.game_uuid;
            is_given = game;
            is_kept = get_ticket a k "game_uuid" k.game_uuid refl;
          },
          (
            record {
              value = k.accepted_utc;
              is_given = accepted;
              is_kept = get_ticket a k "accepted_utc" k.accepted_utc refl;
            },
            record {
              value = k.signature;
              is_given = signed;
              is_kept = get_ticket a k "signature" k.signature refl;
            },
          ),
        ),
      ),
    );
    placed = (
      get_ticket a k "install_path" a.install_dir refl,
      (
        get_ticket a k "launch_exe" a.launch_exe refl,
        get_ticket a k "revision_id" a.revision_id refl,
      ),
    );
  }

  pub ticket_doc-IsTicketOf :
      (a : Asked) (raw : Text) (k : Ticket)
      → ticket_for e a.assignment_id raw ≡ some k
      → (k.assignment_id ≡ a.assignment_id) × IsTicketOf j a k.evaluator_id raw (ticket_doc e a k)
  unfolding ticket_for
  ticket_doc-IsTicketOf a raw k z =
      let (d, y, h) =
        and_then-some (read_ticket e raw)
          (λ (t : Ticket). if t.assignment_id == a.assignment_id then some t else none) k z in
      let same : k.assignment_id ≡ a.assignment_id =
        ground (arith, h, eq_iff d.assignment_id a.assignment_id) in
      (
        same,
        subst
            (λ id.
              IsTicketOf j (record a { assignment_id = id }) k.evaluator_id raw (ticket_doc e a k))
            same (copied_ticket a k raw (read_ticket-IsRead raw k (ground (arith, y, h)))),
      )

  copied_credential :
      (c : Credential) (raw : Text)
      → IsBound raw c
      → IsCredentialOf j c.evaluator_id c.machine_key raw (credential_doc e c)
  unfolding lookup
  copied_credential c raw (evaluator, (machine, (bound, signed))) = record {
    of_evaluator = evaluator;
    of_machine = machine;
    copied = (
      record {
        value = c.evaluator_id;
        is_given = evaluator;
        is_kept = get_credential c "evaluator_id" c.evaluator_id refl;
      },
      (
        record {
          value = c.machine_key;
          is_given = machine;
          is_kept = get_credential c "machine_key" c.machine_key refl;
        },
        (
          record {
            value = c.bound_utc;
            is_given = bound;
            is_kept = get_credential c "bound_utc" c.bound_utc refl;
          },
          record {
            value = c.signature;
            is_given = signed;
            is_kept = get_credential c "signature" c.signature refl;
          },
        ),
      ),
    );
  }

  pub credential_doc-IsCredentialOf :
      (evaluator machine : String) (raw : Text) (c : Credential)
      → credential_for e evaluator machine raw ≡ some c
      → IsCredentialOf j evaluator machine raw (credential_doc e c)
  unfolding credential_for
  credential_doc-IsCredentialOf evaluator machine raw c z =
      let (d, y, h) =
        and_then-some (read_credential e raw)
          (λ (t : Credential).
            if (t.evaluator_id == evaluator) && (t.machine_key == machine) then some t else none)
          c z in
      let same : c.evaluator_id ≡ evaluator = ground (arith, h, eq_iff d.evaluator_id evaluator) in
      let bound : c.machine_key ≡ machine = ground (arith, h, eq_iff d.machine_key machine) in
      subst (λ m. IsCredentialOf j evaluator m raw (credential_doc e c)) bound
        (subst (λ v. IsCredentialOf j v c.machine_key raw (credential_doc e c)) same
          (copied_credential c raw (read_credential-IsBound raw c (ground (arith, y, h)))))
