-- ===== src/Login/Identities.antt =====
-- The identity of a channel, its provider and its key there, leads to one row.
use chatbridge.Prelude.{
  ◌≡◌, String, Bool, true, some, List, [], ◌∷◌, arith, Uuid, ◌==◌, any, find, NoClash, Bool-cases,
  inl, inr, eq_iff,
}
use chatbridge.Model.{ProviderKind, provider_name}
use chatbridge.Db.{Channel}
use chatbridge.Db.Channels.{has_key}
use chatbridge.Db.Indexes.{same_identity}

any_of_found :
    {A : Type 0} (p q : A → Bool) (xs : List A) (a : A)
    → find p xs ≡ some a
    → q a ≡ true
    → any q xs ≡ true
any_of_found p q [] a h k = ground arith
any_of_found p q (x ∷ xs) a h k = ground (arith, any_of_found p q xs a)

both_have :
    (kind : ProviderKind) (key : String) (x c : Channel)
    → has_key kind key x ≡ true
    → has_key kind key c ≡ true
    → same_identity x c ≡ true
both_have kind key x c h k = ground (
  arith,
  eq_iff x.provider (provider_name kind),
  eq_iff c.provider (provider_name kind),
  eq_iff x.external_key key,
  eq_iff c.external_key key,
  eq_iff c.provider x.provider,
  eq_iff c.external_key x.external_key,
)

-- A row that has an identity is the one that the identity finds.
pub one_identity :
    (kind : ProviderKind) (key : String) (id : Uuid) (cs : List Channel) (c : Channel)
    → NoClash same_identity cs
    → find (λ x. x.id == id) cs ≡ some c
    → has_key kind key c ≡ true
    → find (has_key kind key) cs ≡ some c
one_identity kind key id [] c free h k = ground arith
one_identity kind key id (x ∷ xs) c (here, later) h k = elim (Bool-cases (x.id == id)) [
  | inl e ↦ ground arith
  | inr e ↦ elim (Bool-cases (has_key kind key x)) [
    | inl e' ↦
        let twice : any (same_identity x) xs ≡ true =
          any_of_found (λ y. y.id == id) (same_identity x) xs c (ground arith)
            (both_have kind key x c e' k) in
        absurd (ground arith)
    | inr e' ↦ rw e' (one_identity kind key id xs c later (ground arith) k)
  ]
]
