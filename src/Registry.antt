-- ===== src/Registry.antt =====
-- registry.rs: the live WebSocket connections of each client and operator. A `mpsc::Sender` is
-- tokio's: its type, a fresh one of capacity 64, and `try_send` are parameters.
pub mod Invariant
pub mod Counting
use chatbridge.Prelude.{
  ℕ, String, Bool, none, some, List, [], ◌∷◌, Uuid, ◌+◌, ◌%◌, ◌^◌, length, unwrap_or, if◌then◌else◌,
}
use chatbridge.Prelude.Map.{Map, get, insert, remove, map_values, uuid_same}

-- What one identity has open, by connection id.
abbrev pub Connections : Type 0 → Type 0
Connections T = Map ℕ T

pub record Registry (T : Type 0) : Type 0 where
  pub next_id : ℕ
  pub connections : Map Uuid (Connections T)
  pub operator_ids : Map Uuid (Unit {0})

abbrev pub is_empty {ℓ} : {A : Type ℓ} → List A → Bool
is_empty [] = Bool.true
is_empty (_ ∷ _) = Bool.false

-- `ClientRegistry::new`
abbrev pub new : {T : Type 0} → Registry T
new = record { next_id = 1; connections = []; operator_ids = [] }

module _ {T : Type 0} where
  -- `entry(id).or_default()`
  abbrev pub entry : Uuid → Registry T → Connections T
  entry id r = unwrap_or (get id r.connections) []

  -- `register`, over the sender that `mpsc::channel(64)` made. The counter is an `AtomicU64`.
  unfoldable pub register : T → Registry T → Uuid → Bool → Registry T × ℕ
  register tx r id is_operator = (
    record r {
      next_id = (r.next_id + 1) % 2 ^ 64;
      connections = insert id (insert r.next_id tx (entry id r)) r.connections;
      operator_ids = if is_operator then insert id tt r.operator_ids else r.operator_ids;
    },
    r.next_id,
  )

  -- The end of `deregister`: the connections left, or the identity's removal with the last one.
  close : Registry T → Uuid → Connections T → Registry T
  close r id rest =
      if is_empty rest
      then record r {
        connections = remove id r.connections;
        operator_ids = remove id r.operator_ids;
      }
      else record r { connections = insert id rest r.connections }

  -- `deregister`
  unfoldable pub deregister : Registry T → Uuid → ℕ → Registry T
  unfolding close
  deregister r id conn_id = elim (get id r.connections) [
    | none ↦ r
    | some conns ↦ close r id (remove conn_id conns)
  ]

  -- `send_to`: one `try_send` for each connection, whose result is ignored.
  unfoldable pub send_to : (T → String → T) → Registry T → Uuid → String → Registry T
  send_to try_send r id payload = elim (get id r.connections) [
    | none ↦ r
    | some conns ↦ record r {
      connections = insert id (map_values (λ tx. try_send tx payload) conns) r.connections;
    }
  ]

  count_all : Map Uuid (Connections T) → ℕ
  count_all [] = 0
  count_all ((_, conns) ∷ m) = length conns + count_all m

  -- `connection_count`
  unfoldable pub connection_count : Registry T → ℕ
  unfolding count_all
  connection_count r = count_all r.connections
