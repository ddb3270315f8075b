-- ===== src/Config/Load/Defaults.antt =====
-- internal/config/config.go: the defaults.
use csar_notify.Base.{Dict, Text, [], arith, codes, negsuc, pos, refl, suc, zero, ℕ, ℤ, ◌∷◌, ◌≡◌}
use csar_notify.Telegram.{BotConfig, telegram_api}
use csar_notify.Config.{TelegramProviderConfig}
use csar_notify.Config.Load.{
  Config, ConsumerConfig, or_text, or_int, default_bots, default_telegram, default_consumer,
  defaults,
}

or_text_idem : (t default : Text) → or_text (or_text t default) default ≡ or_text t default
or_text_idem [] [] = refl
or_text_idem [] (d ∷ default) = refl
or_text_idem (c ∷ t) default = refl

or_int_idem : (z : ℤ) (default : ℕ) → or_int (or_int z default) default ≡ or_int z default
or_int_idem (pos zero) zero = refl
or_int_idem (pos zero) (suc default) = refl
or_int_idem (pos (suc n)) default = refl
or_int_idem (negsuc n) default = refl

default_bots_idem :
    (url : Text) (bots : Dict BotConfig)
    → default_bots url (default_bots url bots) ≡ default_bots url bots
unfolding default_bots
default_bots_idem url [] = refl
default_bots_idem url ((name, bot) ∷ rest) = ground (arith, default_bots_idem url rest)

default_telegram_idem :
    (t : TelegramProviderConfig) → default_telegram (default_telegram t) ≡ default_telegram t
unfolding default_telegram
default_telegram_idem t = ground (
  arith,
  or_text_idem t.api_base_url telegram_api,
  default_bots_idem (or_text t.api_base_url telegram_api) t.bots,
)

default_consumer_idem :
    (c : ConsumerConfig) → default_consumer (default_consumer c) ≡ default_consumer c
unfolding default_consumer
default_consumer_idem c = ground (
  arith,
  or_text_idem c.queue.name (codes "notify.events"),
  or_text_idem c.dlq.name (codes "notify.events.dlq"),
  or_int_idem c.queue.prefetch 200,
  or_int_idem c.batch_size 200,
  or_int_idem c.flush_interval 2000,
  or_int_idem c.max_redeliveries 3,
)

-- Defaults fill in what is missing and nothing else: on a configuration that has them they change
-- nothing.
pub defaults_idem : (cfg : Config) → defaults (defaults cfg) ≡ defaults cfg
unfolding defaults
defaults_idem cfg = ground (
  arith,
  or_text_idem cfg.service.name (codes "csar-notify"),
  or_int_idem cfg.service.port 8085,
  or_int_idem cfg.service.health_port 9085,
  or_text_idem cfg.redis.prefix (codes "notify:"),
  or_int_idem cfg.ingest.buffer_size 10000,
  or_int_idem cfg.ingest.publisher_workers 4,
  default_consumer_idem cfg.consumer,
  default_telegram_idem cfg.providers.telegram,
  or_int_idem cfg.sample_ratio 1000000,
)
