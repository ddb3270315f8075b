-- ===== src/Config.antt =====
-- internal/config/config.go: which site targets and Telegram bots a configuration gives. Reading the
-- YAML file is outside. A map is in the order in which a `range` visits it; quotes in the texts of
-- errors are left out.
pub mod Targets
pub mod Bots
pub mod Load
use csar_notify.Base.{
  Bool, Dict, Result, Text, [], codes, err, if◌then◌else◌, insert, is_empty, length, lookup, none,
  not, ok, plain, some, trim_space, ◌++◌, ◌==◌, ◌∷◌,
}
use csar_notify.Telegram.{BotConfig, telegram_api}

-- type SiteProviderConfig struct; a target is its Redis prefix
pub record SiteProviderConfig : Type 0 where
  pub enabled : Bool
  pub default_target : Text
  pub targets : Dict Text

-- type TelegramProviderConfig struct
pub record TelegramProviderConfig : Type 0 where
  pub enabled : Bool
  pub default_bot : Text
  pub bot_token : Text
  pub api_base_url : Text
  pub bots : Dict BotConfig

-- The loop that trims the targets.
unfoldable pub collect_targets : Dict Text → Dict Text → Result (Dict Text)
collect_targets targets [] = ok targets
collect_targets targets ((raw_name, redis_prefix) ∷ rest) =
    let name = trim_space raw_name in
    let later = collect_targets (insert name (trim_space redis_prefix) targets) rest in
    if is_empty name
    then err (plain (codes "providers.site.targets keys must not be empty"))
    else later

-- The prefix of a target that has none.
abbrev pub derived_prefix : Text → Dict Text → Text → Text
derived_prefix base_prefix targets name =
    if length targets == 1 then base_prefix else base_prefix ++ name ++ codes ":"

-- The loop that fills in the prefixes; `all` are the targets, whose number does not change.
unfoldable pub fill_prefixes : Text → Dict Text → Dict Text → Dict Text
fill_prefixes base_prefix all [] = []
fill_prefixes base_prefix all ((name, redis_prefix) ∷ rest) =
    (name, if is_empty redis_prefix then derived_prefix base_prefix all name else redis_prefix)
    ∷ fill_prefixes base_prefix all rest

-- The default target, where there are targets.
unfoldable pub default_of : Text → Dict Text → Result Text
default_of (c ∷ name) targets = ok (c ∷ name)
default_of [] ((name, redis_prefix) ∷ []) = ok name
default_of [] targets = err (
    plain
      (codes "providers.site.default_target is required when multiple site targets are configured"))

unfoldable pub check_default : Text → Dict Text → Text → Result (Dict Text × Text)
check_default base_prefix targets default_target = elim (lookup default_target targets) [
  | none ↦ err (
      plain (
        codes "providers.site.default_target "
        ++ default_target
        ++ codes " is not defined under providers.site.targets"))
  | some redis_prefix ↦ ok (fill_prefixes base_prefix targets targets, default_target)
]

unfoldable pub resolve_targets : Text → Text → Dict Text → Result (Dict Text × Text)
resolve_targets base_prefix default_target [] =
    let name = if is_empty default_target then codes "default" else default_target in
    ok ((name, base_prefix) ∷ [], name)
resolve_targets base_prefix default_target (t ∷ ts) = elim (default_of default_target (t ∷ ts)) [
  | err e ↦ err e
  | ok name ↦ check_default base_prefix (t ∷ ts) name
]

unfoldable pub effective_targets : SiteProviderConfig → Text → Result (Dict Text × Text)
effective_targets s base_prefix = elim (collect_targets [] s.targets) [
  | err e ↦ err e
  | ok targets ↦ resolve_targets base_prefix (trim_space s.default_target) targets
]

abbrev pub or_api : Text → Text
or_api url = if is_empty url then telegram_api else url

-- The loop over the bots.
unfoldable pub collect_bots : Dict BotConfig → Dict BotConfig → Result (Dict BotConfig)
collect_bots bots [] = ok bots
collect_bots bots ((raw_name, raw_bot) ∷ rest) =
    let name = trim_space raw_name in
    let token = trim_space raw_bot.token in
    let bot : BotConfig = record {
      token = token;
      api_base_url = or_api (trim_space raw_bot.api_base_url);
    } in
    let later = collect_bots (insert name bot bots) rest in
    if is_empty name
    then err (plain (codes "providers.telegram.bots keys must not be empty"))
    else if is_empty token
    then err (plain (codes "providers.telegram.bots." ++ name ++ codes ".token is required"))
    else later

abbrev pub legacy_bot_name : Text
legacy_bot_name = codes "default"

unfoldable pub add_legacy : TelegramProviderConfig → Dict BotConfig → Dict BotConfig
add_legacy t bots =
    let token = trim_space t.bot_token in
    let legacy : BotConfig = record {
      token = token;
      api_base_url = or_api (trim_space t.api_base_url);
    } in
    if is_empty token then bots else insert legacy_bot_name legacy bots

abbrev pub only_bot : Dict BotConfig → Result Text
only_bot ((name, bot) ∷ []) = ok name
only_bot bots =
    err
      (plain (codes "providers.telegram.default_bot is required when multiple bots are configured"))

unfoldable pub default_bot_of : Text → Dict BotConfig → Result Text
default_bot_of (c ∷ name) bots = ok (c ∷ name)
default_bot_of [] bots = elim (lookup legacy_bot_name bots) [
  | some bot ↦ ok legacy_bot_name
  | none ↦ only_bot bots
]

unfoldable pub check_default_bot : Dict BotConfig → Text → Result (Dict BotConfig × Text)
check_default_bot bots default_bot = elim (lookup default_bot bots) [
  | none ↦
      err
        (plain (codes "providers.telegram.default_bot " ++ default_bot ++ codes " is not defined"))
  | some bot ↦ ok (bots, default_bot)
]

unfoldable pub choose_default : Text → Dict BotConfig → Result (Dict BotConfig × Text)
choose_default default_bot [] =
    err (plain (codes "providers.telegram requires bot_token or bots when telegram is enabled"))
choose_default default_bot (b ∷ bs) = elim (default_bot_of default_bot (b ∷ bs)) [
  | err e ↦ err e
  | ok name ↦ check_default_bot (b ∷ bs) name
]

unfoldable pub effective_bots : TelegramProviderConfig → Result (Dict BotConfig × Text)
effective_bots t = elim (collect_bots [] t.bots) [
  | err e ↦ err e
  | ok bots ↦ choose_default (trim_space t.default_bot) (add_legacy t bots)
]
