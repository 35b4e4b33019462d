-- ===== src/Cache/Keys.antt =====
-- The key of the caches' secondary indexes: a provider and its identity.
use chatbridge.Prelude.{◌≡◌, ◌↔◌, String, Bool, true, false, arith, str_eq, eq_iff, ◌&&◌}
use chatbridge.Prelude.Map.{HasSame}
use chatbridge.Model.{ProviderKind, instagram, telegram, widget}

abbrev pub Key : Type 0
Key = ProviderKind × String

abbrev pub same_kind : ProviderKind → ProviderKind → Bool
same_kind instagram instagram = true
same_kind telegram telegram = true
same_kind widget widget = true
same_kind _ _ = false

abbrev pub same_key : Key → Key → Bool
same_key a b = same_kind a.0 b.0 && str_eq a.1 b.1

pub same_key_iff : (a b : Key) → (same_key a b ≡ true) ↔ (a ≡ b)
same_key_iff a b = ((λ h. ground (arith, eq_iff a.1 b.1)), (λ h. ground (arith, eq_iff a.1 b.1)))

instance abbrev pub key_same : HasSame Key
key_same = record { same = same_key; same_iff = same_key_iff }
