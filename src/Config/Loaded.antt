-- ===== src/Config/Loaded.antt =====
-- What a configuration that loads is.
use proxify_vpn.Base.{
  Bool, Bool-cases, Option, String, arith, false, if◌then◌else◌, inl, inr, ltb, not, ℕ, ◌&&◌, ◌=?◌,
  ◌≡◌, ◌≢◌, ◌≤◌,
}
use proxify_vpn.Base.Text.{byte_length}
use proxify_vpn.Config.{Config, checked_config, config_with, is_dev, load}
use proxify_vpn.Errors.{err, ok, ok-inj, text, unless-ok}

module _ (getenv : String → String) (parse_duration : String → Option ℕ)
    (parse_bool : String → Option Bool) where
  -- Outside dev the secrets are there.
  pub record IsProduction (c : Config) : Type 0 where
    pub long_secret : 32 ≤ byte_length c.jwt_secret
    pub own_secret : c.jwt_secret ≡ getenv "PROXIFY_JWT_SECRET"
    pub payment_key : c.paystack_secret_key ≢ ""
    pub webhook_key : c.paystack_webhook_key ≢ ""

  -- Both guards were passed.
  checked_config-ok :
      (secret : String) (c : Config)
      → checked_config getenv parse_duration parse_bool secret ≡ ok c
      → ((ltb (byte_length secret) 32 && not (is_dev getenv parse_duration parse_bool)) ≡ false)
        × ((not (is_dev getenv parse_duration parse_bool) && getenv "PAYSTACK_SECRET_KEY" =? "")
            ≡ false)
        × (config_with getenv parse_duration parse_bool secret ≡ c)
  checked_config-ok secret c h =
      let (long, h₁) = unless-ok _ _ _ h in
      let (paying, h₂) = unless-ok _ _ _ h₁ in (long, paying, ok-inj h₂)

  outside_dev :
      (secret : String) (c : Config)
      → config_with getenv parse_duration parse_bool secret ≡ c
      → c.environment ≢ "dev"
      → is_dev getenv parse_duration parse_bool ≡ false
  outside_dev secret c same outside = ground arith

  checked_config-IsProduction :
      (c : Config)
      → checked_config getenv parse_duration parse_bool (getenv "PROXIFY_JWT_SECRET") ≡ ok c
      → c.environment ≢ "dev"
      → IsProduction c
  checked_config-IsProduction c h outside =
      let (long, paying, same) = checked_config-ok _ c h in
      let dev = outside_dev _ c same outside in
      record {
        long_secret = ground arith;
        own_secret = ground arith;
        payment_key = ground arith;
        webhook_key = ground arith;
      }

  -- A configuration that loads outside dev has a secret of 32 bytes or more, which is the
  -- environment's and not the built-in one, and keys for Paystack and its webhooks.
  pub load-IsProduction :
      (c : Config)
      → load getenv parse_duration parse_bool ≡ ok c
      → c.environment ≢ "dev"
      → IsProduction c
  unfolding load
  load-IsProduction c h outside = elim (Bool-cases (getenv "PROXIFY_JWT_SECRET" =? "")) [
    | inl missing ↦ absurd (dev_only (rw missing at h))
    | inr present ↦ checked_config-IsProduction c (rw present at h) outside
  ]
    where
      dev_only :
          (if not (is_dev getenv parse_duration parse_bool)
              then err (text "PROXIFY_JWT_SECRET is required outside dev")
              else checked_config getenv parse_duration parse_bool
                  "dev-only-insecure-secret-do-not-ship")
            ≡ ok c
          → ⊥
      dev_only k =
          let (dev, h₁) =
            unless-ok (not (is_dev getenv parse_duration parse_bool))
              (text "PROXIFY_JWT_SECRET is required outside dev")
              (checked_config getenv parse_duration parse_bool
                "dev-only-insecure-secret-do-not-ship")
              k in
          let (_, _, same) = checked_config-ok "dev-only-insecure-secret-do-not-ship" c h₁ in
          let production = outside_dev "dev-only-insecure-secret-do-not-ship" c same outside in
          ground arith
