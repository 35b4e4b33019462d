-- ===== src/Refresh/Pass.antt =====
-- What one pass of the token refresher counts.
use mathlib.Core.Path.{subst}
use chatbridge.Prelude.{
  refl, sym, none, some, ◌⊎◌, Option-cases, Bool-cases, ◌≡◌, ℕ, suc, ◌+◌, ◌≤◌, String, true, false,
  List, [], ◌∷◌, arith, Instant, length, inl, inr,
}
use chatbridge.Prelude.Json.{Json}
use chatbridge.Prelude.Results.{Result, Result-cases, ok}
use chatbridge.Model.{InstagramConfig, instagram}
use chatbridge.Db.{Channel, SqlError}
use chatbridge.Db.Channels.{list_live_channels_by_provider}
use chatbridge.World.{Env, World, read_db, current}
use chatbridge.Oauth.{LongLivedToken}
use chatbridge.Provider.{utc_now}
use chatbridge.Refresh.{
  is_due, due_channels, refresh_channel, refresh_all, refresh_listed, refresh_due_tokens,
}

-- A token that is due stays due.
pub is_due_later :
    (config : InstagramConfig) (now later : Instant)
    → now ≤ later
    → is_due config now ≡ true
    → is_due config later ≡ true
unfolding is_due
is_due_later config now later h due = ground arith

module _ (env : Env) (clock : ℕ → Instant) (refresh_token : String → Result String LongLivedToken)
    (to_json : InstagramConfig → Result String Json) (show : SqlError → String)
    (parse_config : Json → Result String InstagramConfig) where
  counted :
      (due : List (Channel × InstagramConfig)) (a b : ℕ) (w : World)
      → let r = (refresh_all env clock refresh_token to_json show parse_config due (a, b) w).0 in
        r.0 + r.1 ≡ a + b + length due
  unfolding refresh_all
  counted [] a b w = omega arith
  counted ((channel, config) ∷ due) a b w =
      let done =
        refresh_channel env clock refresh_token to_json show parse_config channel config w in
      elim (Result-cases done.0) [
        | inl (_, e) ↦ ground (arith, counted due (suc a) b done.1)
        | inr (reason, e) ↦ ground (arith, counted due a (suc b) done.1)
      ]

  -- The pass counts what it refreshes.
  pub refresh_due_tokens-length :
      (w : World)
      → env.fails w.queries ≡ false
      → let r = (refresh_due_tokens env clock refresh_token to_json show parse_config w).0 in
        let listed = list_live_channels_by_provider instagram (current env w) in
        r.0 + r.1 ≡ length (due_channels parse_config listed (clock (suc w.queries)))
  unfolding refresh_due_tokens refresh_listed read_db utc_now
  refresh_due_tokens-length w calm =
      let listed = list_live_channels_by_provider instagram (current env w) in
      let due = due_channels parse_config listed (clock (suc w.queries)) in
      ground (arith, counted due 0 0 (record w { db = current env w; queries = suc w.queries }))

  -- The channel's config can be read, and has a token whose expiry is not known or at most three
  -- days away.
  abbrev pub NeedsToken : Instant → Channel → Type 0
  NeedsToken now channel =
      (config : InstagramConfig) × (parse_config channel.config ≡ ok config)
      × ((config.token_expires_at ≡ none)
          ⊎ ((expiry : Instant) × (config.token_expires_at ≡ some expiry)
              × (expiry ≤ now + 259200000000)))

  -- How many of the channels need a token.
  abbrev pub Counts : Instant → List Channel → ℕ → Type 0
  Counts now [] n = n ≡ 0
  Counts now (channel ∷ channels) n =
      (NeedsToken now channel × (m : ℕ) × (n ≡ suc m) × Counts now channels m)
      ⊎ ((¬ NeedsToken now channel) × Counts now channels n)

  due-NeedsToken :
      (now : Instant) (channel : Channel) (config : InstagramConfig)
      → parse_config channel.config ≡ ok config
      → is_due config now ≡ true
      → NeedsToken now channel
  unfolding is_due
  due-NeedsToken now channel config parsed due = (
    config,
    parsed,
    elim (Option-cases config.token_expires_at) [
      | inl e ↦ inl e
      | inr (expiry, e) ↦ inr (expiry, e, ground (arith, e, due))
    ],
  )

  NeedsToken-due :
      (now : Instant) (channel : Channel) (config : InstagramConfig)
      → parse_config channel.config ≡ ok config
      → NeedsToken now channel
      → is_due config now ≡ true
  unfolding is_due
  NeedsToken-due now channel config parsed (other, same, inl e) =
      let here : other ≡ config = ground (arith, parsed, same) in ground (arith, here, e)
  NeedsToken-due now channel config parsed (other, same, inr (expiry, e, soon)) =
      let here : other ≡ config = ground (arith, parsed, same) in ground (arith, here, e, soon)

  due_channels-Counts :
      (now : Instant) (channels : List Channel)
      → Counts now channels (length (due_channels parse_config channels now))
  unfolding due_channels
  due_channels-Counts now [] = refl
  due_channels-Counts now (channel ∷ channels) =
      let rest = due_channels-Counts now channels in
      let counts = λ (n : ℕ). Counts now channels n in
      elim (Result-cases (parse_config channel.config)) [
        | inr (e, bad) ↦
            let same : length (due_channels parse_config (channel ∷ channels) now)
                ≡ length (due_channels parse_config channels now) =
              ground (arith, bad) in
            inr ((λ (config, good, _). ground (arith, bad, good)), subst counts (sym same) rest)
        | inl (config, good) ↦ elim (Bool-cases (is_due config now)) [
          | inl e ↦ inl (
            due-NeedsToken now channel config good e,
            length (due_channels parse_config channels now),
            ground (arith, good, e),
            rest,
          )
          | inr e ↦
              let same : length (due_channels parse_config (channel ∷ channels) now)
                  ≡ length (due_channels parse_config channels now) =
                ground (arith, good, e) in
              inr (
                (λ h. ground (arith, e, NeedsToken-due now channel config good h)),
                subst counts (sym same) rest,
              )
        ]
      ]

  -- When the channels could be listed, the pass counts as refreshed or as failed, once each, those live
  -- Instagram channels whose config can be read and whose token has no known expiry or one that is at
  -- most three days away, and no other.
  pub refresh_due_tokens-Counts :
      (w : World)
      → env.fails w.queries ≡ false
      → let r = (refresh_due_tokens env clock refresh_token to_json show parse_config w).0 in
        Counts
          (clock (suc w.queries))
          (list_live_channels_by_provider instagram (current env w))
          (r.0 + r.1)
  refresh_due_tokens-Counts w calm =
      rw (refresh_due_tokens-length w calm) (due_channels-Counts (clock (suc w.queries)) _)
