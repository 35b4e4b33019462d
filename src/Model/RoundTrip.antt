-- ===== src/Model/RoundTrip.antt =====
-- The names that the database and the wire use for providers, against `model.rs`.
use chatbridge.Prelude.{◌≡◌, refl, arith, String, some, eq_iff}
use chatbridge.Model.{ProviderKind, instagram, telegram, widget, parse_provider, provider_name}

-- Parsing a provider's printed name gives the provider back.
pub parse_provider-provider_name : (k : ProviderKind) → parse_provider (provider_name k) ≡ some k
unfolding parse_provider provider_name
parse_provider-provider_name instagram = refl
parse_provider-provider_name telegram = refl
parse_provider-provider_name widget = refl

-- Every text that parses to a provider is that provider's printed name: the two are inverse, and
-- no other spelling is accepted.
pub provider_name-parse_provider :
    (s : String) (k : ProviderKind) → parse_provider s ≡ some k → provider_name k ≡ s
unfolding parse_provider provider_name
provider_name-parse_provider s instagram h =
    ground (arith, eq_iff s "instagram", eq_iff s "telegram", eq_iff s "widget")
provider_name-parse_provider s telegram h =
    ground (arith, eq_iff s "instagram", eq_iff s "telegram", eq_iff s "widget")
provider_name-parse_provider s widget h =
    ground (arith, eq_iff s "instagram", eq_iff s "telegram", eq_iff s "widget")
