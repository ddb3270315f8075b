-- ===== src/Config/Bots.antt =====
-- internal/config/config.go: what a configuration of Telegram promises to the provider.
use csar_notify.Base.{
  Bool-cases, Dict, Option-cases, Result-cases, Text, [], arith, false, inl, inr, insert, is_empty,
  lookup, lookup-insert, ok, refl, some, subst, sym, text_eq, trim_space, ◌∷◌, ◌≡◌,
}
use csar_notify.Telegram.{BotConfig}
use csar_notify.Config.{
  TelegramProviderConfig, collect_bots, add_legacy, default_bot_of, check_default_bot,
  choose_default, effective_bots, or_api,
}

-- A bot that can be called.
abbrev pub IsUsable : BotConfig → Type 0
IsUsable bot = (is_empty bot.token ≡ false) × (is_empty bot.api_base_url ≡ false)

-- Every bot of the map can be called.
abbrev pub AllUsable : Dict BotConfig → Type 0
AllUsable bots = (name : Text) (bot : BotConfig) → lookup name bots ≡ some bot → IsUsable bot

or_api_solid : (url : Text) → is_empty (or_api url) ≡ false
or_api_solid [] = refl
or_api_solid (c ∷ url) = refl

insert-AllUsable :
    (name : Text) (bot : BotConfig) (bots : Dict BotConfig)
    → IsUsable bot
    → AllUsable bots
    → AllUsable (insert name bot bots)
insert-AllUsable name bot bots u a j b h = elim (Bool-cases (text_eq name j)) [
  | inl e ↦ ground (arith, lookup-insert name j bot bots, u)
  | inr e ↦ a j b (ground (arith, lookup-insert name j bot bots, h))
]

no_bots : AllUsable []
unfolding lookup
no_bots n b h = cc h

collect_bots-AllUsable :
    (bots raw out : Dict BotConfig)
    → AllUsable bots
    → collect_bots bots raw ≡ ok out
    → AllUsable out
unfolding collect_bots
collect_bots-AllUsable bots [] out a h = subst AllUsable (ground arith) a
collect_bots-AllUsable bots ((raw_name, raw_bot) ∷ rest) out a h =
    let bot : BotConfig = record {
      token = trim_space raw_bot.token;
      api_base_url = or_api (trim_space raw_bot.api_base_url);
    } in
    collect_bots-AllUsable (insert (trim_space raw_name) bot bots) rest out
      (insert-AllUsable (trim_space raw_name) bot bots
        (ground arith, or_api_solid (trim_space raw_bot.api_base_url)) a)
      (ground arith)

add_legacy-AllUsable :
    (t : TelegramProviderConfig) (bots : Dict BotConfig)
    → AllUsable bots
    → AllUsable (add_legacy t bots)
unfolding add_legacy
add_legacy-AllUsable t bots a = elim (Bool-cases (is_empty (trim_space t.bot_token))) [
  | inl e ↦ rw e a
  | inr e ↦ rw e (insert-AllUsable _ _ bots (e, or_api_solid (trim_space t.api_base_url)) a)
]

choose_default_lem :
    (default_bot : Text) (bots out : Dict BotConfig) (name : Text)
    → choose_default default_bot bots ≡ ok (out, name)
    → (out ≡ bots) × ((bot : BotConfig) × (lookup name bots ≡ some bot))
unfolding choose_default check_default_bot
choose_default_lem default_bot [] out name h = absurd (ground arith)
choose_default_lem default_bot (b ∷ bs) out name h =
    elim (Result-cases (default_bot_of default_bot (b ∷ bs))) [
      | inl (e, bad) ↦ absurd (ground arith)
      | inr (found, good) ↦ elim (Option-cases (lookup found (b ∷ bs))) [
        | inl missing ↦ absurd (ground arith)
        | inr (bot, there) ↦ (ground arith, (bot, ground arith))
      ]
    ]

-- Where EffectiveBots succeeds, its default bot is one of its bots, and each of them has a token and
-- an address.
pub effective_bots_usable :
    (t : TelegramProviderConfig) (bots : Dict BotConfig) (default_bot : Text)
    → effective_bots t ≡ ok (bots, default_bot)
    → ((bot : BotConfig) × (lookup default_bot bots ≡ some bot)) × AllUsable bots
unfolding effective_bots
effective_bots_usable t bots default_bot h = elim (Result-cases (collect_bots [] t.bots)) [
  | inl (e, bad) ↦ absurd (ground arith)
  | inr (collected, good) ↦
      let (same, found) =
        choose_default_lem (trim_space t.default_bot) (add_legacy t collected) bots default_bot
          (ground arith) in
      let usable =
        add_legacy-AllUsable t collected
          (collect_bots-AllUsable [] t.bots collected no_bots good) in
      (
        subst (λ (m : Dict BotConfig). (bot : BotConfig) × (lookup default_bot m ≡ some bot))
            (sym same) found,
        subst AllUsable (sym same) usable,
      )
]
