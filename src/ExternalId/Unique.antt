-- ===== src/ExternalId/Unique.antt =====
-- The ids of external_id.rs do not collide.
use chatbridge.Prelude.{◌≡◌, ap, refl, String, false, Uuid, arith}
use chatbridge.Prelude.Colons.{has_colon, split_once_colon, split_append}
use chatbridge.ExternalId.{join, widget_id, telegram_id}

-- Texts with no colon before their first colon agree on both sides of it.
join_inj :
    (a b c d : String)
    → has_colon a ≡ false
    → has_colon c ≡ false
    → join a b ≡ join c d
    → (a ≡ c) × (b ≡ d)
join_inj a b c d ha hc h =
    ground (arith, split_append a b ha, split_append c d hc, ap split_once_colon h)

module _ {I : Type 0} (print_int : I → String)
    (distinct : (x y : I) → print_int x ≡ print_int y → x ≡ y)
    (plain : (x : I) → has_colon (print_int x) ≡ false) where
  -- Two messages of a bot have the same id only if both their chat and their number are the same.
  pub telegram_id-inj :
      (chat message chat' message' : I)
      → telegram_id print_int chat message ≡ telegram_id print_int chat' message'
      → (chat ≡ chat') × (message ≡ message')
  unfolding telegram_id
  telegram_id-inj chat message chat' message' h =
      let (_, rest) = join_inj "telegram" _ "telegram" _ refl refl h in
      let (c, m) = join_inj _ _ _ _ (plain chat) (plain chat') rest in
      (distinct chat chat' c, distinct message message' m)

module _ (print_uuid : Uuid → String)
    (distinct : (x y : Uuid) → print_uuid x ≡ print_uuid y → x ≡ y)
    (plain : (x : Uuid) → has_colon (print_uuid x) ≡ false) where
  -- Two widget messages have the same id only if both their client and their `mid` are the same: a
  -- browser that reuses a `mid` takes no other visitor's id.
  pub widget_id-inj :
      (client mid client' mid' : Uuid)
      → widget_id print_uuid client mid ≡ widget_id print_uuid client' mid'
      → (client ≡ client') × (mid ≡ mid')
  unfolding widget_id
  widget_id-inj client mid client' mid' h =
      let (_, rest) = join_inj "widget" _ "widget" _ refl refl h in
      let (c, m) = join_inj _ _ _ _ (plain client) (plain client') rest in
      (distinct client client' c, distinct mid mid' m)
