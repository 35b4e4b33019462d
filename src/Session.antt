-- ===== src/Session.antt =====
-- `resolve_client` and `resolve_operator` of handler/mod.rs: who a WebSocket belongs to. Signing and
-- verifying a token (jwt.rs) is the `jsonwebtoken` crate's, over the configured secret.
pub mod Resumption
use chatbridge.Prelude.{String, Option, none, some, Uuid, and_then}
use chatbridge.Prelude.Results.{Result, ok, err}
use chatbridge.Db.{SqlError}
use chatbridge.Db.Clients.{create_client, create_operator}
use chatbridge.World.{Env, Io, pure, ◌>>=◌, write_db}
use chatbridge.Pipeline.Lookup.{get_client_by_uuid, get_operator}

-- The identity, and the token to hand out if the identity is new.
abbrev pub Resolved : Type 0
Resolved = Result SqlError (Uuid × Option String)

module _ (env : Env) (verify : String → Option Uuid) (sign : Uuid → String) where
  unfoldable pub admitted : Result SqlError Uuid → Resolved
  admitted (ok id) = ok (id, some (sign id))
  admitted (err e) = err e

  unfoldable pub new_client : Io Resolved
  new_client = do created ← write_db env (λ id now. create_client id now); pure (admitted created)

  -- What the lookup of a token's identity leads to: an error ends the connection, an unknown identity
  -- is replaced by a new one.
  unfoldable pub recognise :
      {A : Type 0} → Uuid → Io Resolved → Result SqlError (Option A) → Io Resolved
  recognise id create (err e) = pure (err e)
  recognise id create (ok none) = create
  recognise id create (ok (some _)) = pure (ok (id, none))

  -- `resolve_client`
  unfoldable pub resolve_client : Option String → Io Resolved
  unfolding recognise new_client admitted
  resolve_client token = elim (and_then token verify) [
    | none ↦ new_client
    | some client_id ↦ get_client_by_uuid env client_id >>= recognise client_id new_client
  ]

  -- The name of a new operator is made of the id's first hexadecimal digits.
  module _ (name_of : Uuid → String) where
    unfoldable pub new_operator : Io Resolved
    unfolding admitted
    new_operator = do
      created ← write_db env (λ id now. create_operator id now (name_of id))
      pure (admitted created)

    -- `resolve_operator`
    unfoldable pub resolve_operator : Option String → Io Resolved
    unfolding recognise new_operator
    resolve_operator token = elim (and_then token verify) [
      | none ↦ new_operator
      | some operator_id ↦ get_operator env operator_id >>= recognise operator_id new_operator
    ]
