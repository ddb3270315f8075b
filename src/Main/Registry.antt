-- ===== src/Main/Registry.antt =====
-- cmd/csar-notify/main.go: the registry that a configuration comes to.
use csar_notify.Base.{
  Bool, Bool-cases, Dict, List, Option, Result, Text, [], ap, append-nil, arith, err, false,
  if◌then◌else◌, inl, inr, none, ok, refl, some, sym, text_eq, true, ◌++◌, ◌∙◌, ◌∷◌, ◌≡◌,
}
use csar_notify.Config.{effective_targets, effective_bots}
use csar_notify.Config.Load.{Config, Contacts, ProvidersConfig, load_from_bytes}
use csar_notify.Config.Load.Checked.{IsSound, load_from_bytes-IsSound}
use csar_notify.Domain.{channel_site, channel_telegram, channel_email, channel_web_push}
use csar_notify.Provider.{Provider}
use csar_notify.Provider.Registry.{get, new_registry, last_for, get-new_registry}
use csar_notify.Site.{site}
use csar_notify.Telegram
use csar_notify.Telegram.{BotConfig, telegram, new_telegram}
use csar_notify.WebPush.{web_push}
use csar_notify.Main.{
  Outside, site_with, new_site, telegram_with, telegram_provider, web_push_with, append_if,
  add_web_push, add_telegram, build_providers,
}

-- What the site and Telegram are configured with, where they are enabled.
site_parts :
    (cfg : Config)
    → IsSound cfg
    → (targets : Dict Text) × (default_target : Text) × (cfg.providers.site.enabled ≡ true
        → effective_targets cfg.providers.site cfg.redis.prefix ≡ ok (targets, default_target))
site_parts cfg v = elim (Bool-cases cfg.providers.site.enabled) [
  | inl on ↦
      let (targets, default_target, same, solid) = v.site_resolves on in
      (targets, default_target, λ h. same)
  | inr off ↦ ([], [], λ h. absurd (cc (off, h)))
]

bots_ok :
    (r : Result (Dict BotConfig × Text)) (bots : Dict BotConfig) (default_bot : Text)
    → r ≡ ok (bots, default_bot)
    → (t : Telegram.Telegram) × (new_telegram r ≡ ok t)
unfolding new_telegram
bots_ok (err e) bots default_bot h = cc h
bots_ok (ok (b, d)) bots default_bot h = (_, refl)

telegram_parts :
    (cfg : Config)
    → IsSound cfg
    → (t : Telegram.Telegram) × (cfg.providers.telegram.enabled ≡ true
        → new_telegram (effective_bots cfg.providers.telegram) ≡ ok t)
telegram_parts cfg v = elim (Bool-cases cfg.providers.telegram.enabled) [
  | inl on ↦
      let (bots, default_bot, same, usable) = v.telegram_resolves on in
      let (t, made) = bots_ok (effective_bots cfg.providers.telegram) bots default_bot same in
      (t, λ h. made)
  | inr off ↦ (record { bots = []; default_bot = [] }, λ h. absurd (cc (off, h)))
]

module _ {W : Type 0} (o : Outside W) where
  abbrev only_if : Bool → Provider W → List (Option (Provider W))
  only_if enabled p = if enabled then some p ∷ [] else []

  append_if_lem :
      (enabled : Bool) (r : Result (Provider W)) (p : Provider W)
      (items : List (Option (Provider W)))
      → (enabled ≡ true → r ≡ ok p)
      → append_if o enabled r items ≡ ok (items ++ only_if enabled p)
  append_if_lem false r p items h = ap ok (sym (append-nil items))
  append_if_lem true r p items h = rw (h refl) refl

  new_site_lem :
      (r : Result (Dict Text × Text)) (targets : Dict Text) (default_target : Text)
      → r ≡ ok (targets, default_target)
      → new_site o r ≡ ok (site_with o targets default_target)
  unfolding new_site
  new_site_lem r targets default_target h = rw h refl

  telegram_provider_lem :
      (r : Result Telegram.Telegram) (t : Telegram.Telegram)
      → r ≡ ok t
      → telegram_provider o r ≡ ok (telegram_with o t)
  unfolding telegram_provider
  telegram_provider_lem r t h = rw h refl

  -- The providers of a configuration whose targets and bots resolve.
  build_providers_lem :
      (cfg : ProvidersConfig) (redis_prefix : Text) (targets : Dict Text) (default_target : Text)
      (bots : Telegram.Telegram)
      → (cfg.site.enabled ≡ true
          → effective_targets cfg.site redis_prefix ≡ ok (targets, default_target))
      → (cfg.telegram.enabled ≡ true → new_telegram (effective_bots cfg.telegram) ≡ ok bots)
      → build_providers o cfg redis_prefix
        ≡ ok (
            new_registry (
              (only_if cfg.site.enabled (site_with o targets default_target)
                ++ only_if cfg.telegram.enabled (telegram_with o bots))
              ++ only_if cfg.web_push.enabled (web_push_with o cfg.web_push)))
  unfolding build_providers add_web_push add_telegram
  build_providers_lem cfg redis_prefix targets default_target bots s t =
      rw
        (
          append_if_lem cfg.site.enabled (new_site o (effective_targets cfg.site redis_prefix))
              (site_with o targets default_target) []
              (λ h. new_site_lem _ targets default_target (s h)),
          add_telegram,
          append_if_lem cfg.telegram.enabled
              (telegram_provider o (new_telegram (effective_bots cfg.telegram)))
              (telegram_with o bots) (only_if cfg.site.enabled (site_with o targets default_target))
              (λ h. telegram_provider_lem _ bots (t h)),
          add_web_push,
          append_if_lem cfg.web_push.enabled (ok (web_push_with o cfg.web_push))
              (web_push_with o cfg.web_push)
              (only_if cfg.site.enabled (site_with o targets default_target)
                ++ only_if cfg.telegram.enabled (telegram_with o bots))
              (λ h. refl),
        )
        refl

  -- What the registry of a loaded configuration hands out for a channel.
  pub record Serves (cfg : Config) (registry : Dict (Provider W)) : Type 0 where
    pub no_site : cfg.providers.site.enabled ≡ false → get (some registry) channel_site ≡ none
    pub a_site :
        cfg.providers.site.enabled ≡ true
        → (targets : Dict Text) × (default_target : Text) × (effective_targets cfg.providers.site
              cfg.redis.prefix
            ≡ ok (targets, default_target))
          × (get (some registry) channel_site ≡ some (site_with o targets default_target))
    pub no_telegram :
        cfg.providers.telegram.enabled ≡ false → get (some registry) channel_telegram ≡ none
    pub a_telegram :
        cfg.providers.telegram.enabled ≡ true
        → (bots : Telegram.Telegram) × (new_telegram (effective_bots cfg.providers.telegram)
            ≡ ok bots)
          × (get (some registry) channel_telegram ≡ some (telegram_with o bots))
    pub by_web_push : get (some registry) channel_web_push ≡ (
        if cfg.providers.web_push.enabled
        then some (web_push_with o cfg.providers.web_push)
        else none)
    pub no_email : get (some registry) channel_email ≡ none

  abbrev expected :
      Bool → Bool → Bool → Provider W → Provider W → Provider W → Text → Option (Provider W)
  expected a b c p q r channel = last_for channel ((only_if a p ++ only_if b q) ++ only_if c r)

  -- Each of the three serves its own channel.
  by_channel :
      (a b c : Bool) (p q r : Provider W)
      → p.channel ≡ channel_site
      → q.channel ≡ channel_telegram
      → r.channel ≡ channel_web_push
      → (expected a b c p q r channel_site ≡ (if a then some p else none))
        × (expected a b c p q r channel_telegram ≡ (if b then some q else none))
        × (expected a b c p q r channel_web_push ≡ (if c then some r else none))
        × (expected a b c p q r channel_email ≡ none)
  unfolding text_eq
  by_channel a b c p q r s t w = ground (
    arith,
    ap (λ (x : Text). text_eq x channel_site) s,
    ap (λ (x : Text). text_eq x channel_telegram) s,
    ap (λ (x : Text). text_eq x channel_web_push) s,
    ap (λ (x : Text). text_eq x channel_email) s,
    ap (λ (x : Text). text_eq x channel_site) t,
    ap (λ (x : Text). text_eq x channel_telegram) t,
    ap (λ (x : Text). text_eq x channel_web_push) t,
    ap (λ (x : Text). text_eq x channel_email) t,
    ap (λ (x : Text). text_eq x channel_site) w,
    ap (λ (x : Text). text_eq x channel_telegram) w,
    ap (λ (x : Text). text_eq x channel_web_push) w,
    ap (λ (x : Text). text_eq x channel_email) w,
  )

  -- A configuration that LoadFromBytes accepts can always be made into providers, and the registry
  -- then serves the site, Telegram and Web Push each exactly where it is enabled, by the provider of
  -- that part of the configuration, and email never.
  pub loaded-Serves :
      (contacts : Contacts) (parse : Text → Result Config) (bytes : Text) (cfg : Config)
      → load_from_bytes contacts parse bytes ≡ ok cfg
      → (registry : Dict (Provider W)) × (build_providers o cfg.providers cfg.redis.prefix
          ≡ ok registry)
        × Serves cfg registry
  unfolding site telegram web_push
  loaded-Serves contacts parse bytes cfg h =
      let v = load_from_bytes-IsSound contacts parse bytes cfg h in
      let (targets, default_target, s) = site_parts cfg v in
      let (bots, t) = telegram_parts cfg v in
      let ps = cfg.providers in
      let p = site_with o targets default_target in
      let q = telegram_with o bots in
      let r = web_push_with o ps.web_push in
      let all =
        (only_if ps.site.enabled p ++ only_if ps.telegram.enabled q)
        ++ only_if ps.web_push.enabled r in
      let (on_site, on_telegram, on_web_push, on_email) =
        by_channel ps.site.enabled ps.telegram.enabled ps.web_push.enabled p q r refl refl refl in
      (
        new_registry all,
        build_providers_lem ps cfg.redis.prefix targets default_target bots s t,
        record {
          no_site = λ off. get-new_registry all channel_site ∙ on_site ∙ ground (arith, off);
          a_site = λ on. (
            targets,
            default_target,
            s on,
            get-new_registry all channel_site ∙ on_site ∙ ground (arith, on),
          );
          no_telegram =
              λ off. get-new_registry all channel_telegram ∙ on_telegram ∙ ground (arith, off);
          a_telegram = λ on. (
            bots,
            t on,
            get-new_registry all channel_telegram ∙ on_telegram ∙ ground (arith, on),
          );
          by_web_push = get-new_registry all channel_web_push ∙ on_web_push;
          no_email = get-new_registry all channel_email ∙ on_email;
        },
      )
