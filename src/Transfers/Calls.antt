-- ===== src/Transfers/Calls.antt =====
-- Which calls of the service a step adds to those made before.
use virule_client.Prelude.{List, ◌∷◌}

-- The second list is the first with calls of the kind `Q` before it.
pub data Adds {A : Type 0} (Q : A → Type 0) (old : List A) : List A → Type 0 where
  nothing : Adds Q old old
  one_more : (a : A) (new : List A) → Q a → Adds Q old new → Adds Q old (a ∷ new)

pub Adds-trans :
    {A : Type 0} {Q : A → Type 0} {old mid new : List A}
    → Adds Q old mid
    → Adds Q mid new
    → Adds Q old new
Adds-trans h nothing = h
Adds-trans h (one_more a new q k) = one_more a new q (Adds-trans h k)

pub Adds-mono :
    {A : Type 0} {Q R : A → Type 0} {old new : List A}
    → ((a : A) → Q a → R a)
    → Adds Q old new
    → Adds R old new
Adds-mono f nothing = nothing
Adds-mono f (one_more a new q k) = one_more a new (f a q) (Adds-mono f k)
