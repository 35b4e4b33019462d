-- ===== src/Tests/Connections.antt =====
-- Runs of registry.rs; a sender is what it was sent so far.
use chatbridge.Prelude.{String, true, List, [], ◌∷◌, ◌++◌, arith}
use chatbridge.Prelude.Map.{uuid_same}
use chatbridge.Registry.{Registry, new, register}
use chatbridge.Registry.Invariant.{IsValid, new-IsValid, register-IsValid}

abbrev Sent : Type 0
Sent = List String

abbrev try_send : Sent → String → Sent
try_send tx payload = tx ++ payload ∷ []

abbrev empty : Registry Sent
empty = new

abbrev one : Registry Sent
one = (register [] empty 9 true).0

one-IsValid : IsValid one
one-IsValid = register-IsValid [] empty 9 true (omega arith) new-IsValid

register_example : IsValid (register [] one 9 true).0
unfolding register
register_example = register-IsValid [] one 9 true (omega arith) one-IsValid
