-- ===== src/Config/Load/Checked.antt =====
-- internal/config/config.go: what a configuration that was loaded gives the rest of the program.
use csar_notify.Base.{
  All, Bool, Dict, GoError, List, Option, Option-cases, Result, Result-cases, Text, [], arith,
  codes, err, false, inl, inr, int_le, is_empty, negsuc, none, not, ok, pos, refl, some, subst, suc,
  sym, true, zero, ℕ, ℤ, ◌∷◌, ◌≡◌, ◌≢◌,
}
use csar_notify.Config.{effective_bots, effective_targets}
use csar_notify.Config.Bots.{AllUsable, effective_bots_usable}
use csar_notify.Config.Targets.{PrefixesSolid, effective_targets_solid}
use csar_notify.Telegram.{BotConfig}
use csar_notify.Pipeline.{new_buffer, worker_count}
use csar_notify.Config.Load.{
  Config, Contacts, WebPushProviderConfig, or_text, or_int, defaults, require, check_if, error_of,
  first_error, checks, validate_web_push, validate, load_from_bytes, check_list,
}

-- The configuration keeps the promises that the other parts rely on.
pub record IsSound (cfg : Config) : Type 0 where
  pub buffer_as_asked : pos (new_buffer cfg.ingest.buffer_size).capacity ≡ cfg.ingest.buffer_size
  pub workers_as_asked :
      pos (worker_count cfg.ingest.publisher_workers) ≡ cfg.ingest.publisher_workers
  pub batch_positive : (n : ℕ) × (cfg.consumer.batch_size ≡ pos (suc n))
  pub redeliveries_set : cfg.consumer.max_redeliveries ≢ pos 0
  pub flush_set : cfg.consumer.flush_interval ≢ pos 0
  pub queue_named : cfg.consumer.queue.name ≢ []
  pub dlq_named : cfg.consumer.dlq.name ≢ []
  pub no_email : cfg.providers.email_enabled ≡ false
  pub site_resolves :
      cfg.providers.site.enabled ≡ true
      → (targets : Dict Text) × (default_target : Text) × (effective_targets cfg.providers.site
            cfg.redis.prefix
          ≡ ok (targets, default_target))
        × PrefixesSolid targets
  pub telegram_resolves :
      cfg.providers.telegram.enabled ≡ true
      → (bots : Dict BotConfig) × (default_bot : Text) × (effective_bots cfg.providers.telegram
          ≡ ok (bots, default_bot))
        × AllUsable bots

-- What the checks ask for, and what the defaults see to.
record Passed (cfg : Config) : Type 0 where
  buffer : int_le (pos 1) cfg.ingest.buffer_size ≡ true
  workers : int_le (pos 1) cfg.ingest.publisher_workers ≡ true
  batch : int_le (pos 1) cfg.consumer.batch_size ≡ true
  queue : is_empty cfg.consumer.queue.name ≡ false
  dlq : is_empty cfg.consumer.dlq.name ≡ false
  email : cfg.providers.email_enabled ≡ false
  site :
      check_if cfg.providers.site.enabled
        (error_of (effective_targets cfg.providers.site cfg.redis.prefix))
      ≡ none
  telegram :
      check_if cfg.providers.telegram.enabled (error_of (effective_bots cfg.providers.telegram))
      ≡ none

require-none : (b : Bool) (message : Text) → require b message ≡ none → b ≡ true
require-none true message h = refl
require-none false message h = absurd (ground arith)

require-not : (b : Bool) (message : Text) → require (not b) message ≡ none → b ≡ false
require-not false message h = refl
require-not true message h = absurd (ground arith)

first_error-All :
    (cs : List (Option GoError)) → first_error cs ≡ none → All (λ (c : Option GoError). c ≡ none) cs
first_error-All [] h = tt
first_error-All (none ∷ cs) h = (refl, first_error-All cs h)
first_error-All (some e ∷ cs) h = absurd (ground arith)

checks-Passed : (cfg : Config) → checks cfg ≡ none → Passed cfg
unfolding checks
checks-Passed cfg h =
    let (
      dsn,
      (url, (redis, (buffer, (workers, (batch, (queue, (dlq, (email, (site, (telegram, _)))))))))),
    ) =
      first_error-All (check_list cfg) h in
    record {
      buffer = require-none _ _ buffer;
      workers = require-none _ _ workers;
      batch = require-none _ _ batch;
      queue = require-not _ _ queue;
      dlq = require-not _ _ dlq;
      email = require-not _ _ email;
      site = site;
      telegram = telegram;
    }

enabled_ok :
    {A : Type 0} (b : Bool) (r : Result A)
    → check_if b (error_of r) ≡ none
    → b ≡ true
    → (a : A) × (r ≡ ok a)
enabled_ok false r h e = absurd (ground arith)
enabled_ok true (ok a) h e = (a, refl)
enabled_ok true (err f) h e = absurd (ground arith)

positive : (z : ℤ) → int_le (pos 1) z ≡ true → (n : ℕ) × (z ≡ pos (suc n))
positive (pos zero) h = absurd (ground arith)
positive (pos (suc n)) h = (n, refl)
positive (negsuc n) h = absurd (ground arith)

as_asked :
    (z w : ℤ)
    → int_le (pos 1) z ≡ true
    → int_le (pos 1) w ≡ true
    → (pos (new_buffer z).capacity ≡ z) × (pos (worker_count w) ≡ w)
unfolding new_buffer worker_count
as_asked z w h k =
    let (n, e) = positive z h in
    let (m, f) = positive w k in (rw e (ground arith), rw f (ground arith))

or_int-ne : (z : ℤ) (n : ℕ) → or_int z (suc n) ≢ pos 0
or_int-ne (pos zero) n e = ground arith
or_int-ne (pos (suc k)) n e = ground arith
or_int-ne (negsuc k) n e = ground arith

validate_fields :
    (contacts : Contacts) (cfg out : Config)
    → validate contacts cfg ≡ ok out
    → (checks cfg ≡ none)
      × ((w : WebPushProviderConfig) × (out
            ≡ record cfg { providers = record cfg.providers { web_push = w } }))
unfolding validate
validate_fields contacts cfg out h = elim (Option-cases (checks cfg)) [
  | inr (e, bad) ↦ absurd (ground arith)
  | inl fine ↦ elim (Result-cases (validate_web_push contacts cfg.providers.web_push)) [
    | inl (e, bad) ↦ absurd (ground arith)
    | inr (w, good) ↦ (fine, (w, ground arith))
  ]
]

or_text_solid : (t : Text) (c : ℕ) (d : Text) → is_empty (or_text t (c ∷ d)) ≡ false
or_text_solid [] c d = refl
or_text_solid (b ∷ t) c d = refl

defaults_set :
    (cfg : Config)
    → ((defaults cfg).consumer.max_redeliveries ≢ pos 0)
      × ((defaults cfg).consumer.flush_interval ≢ pos 0)
      × (is_empty (defaults cfg).redis.prefix ≡ false)
unfolding defaults
defaults_set cfg = (
  or_int-ne cfg.consumer.max_redeliveries 2,
  or_int-ne cfg.consumer.flush_interval 1999,
  or_text_solid cfg.redis.prefix 110 (codes "otify:"),
)

Passed-IsSound : (cfg : Config) → Passed (defaults cfg) → IsSound (defaults cfg)
Passed-IsSound cfg p =
    let c = defaults cfg in
    let (size, count) =
      as_asked c.ingest.buffer_size c.ingest.publisher_workers p.buffer p.workers in
    record {
      buffer_as_asked = size;
      workers_as_asked = count;
      batch_positive = positive c.consumer.batch_size p.batch;
      redeliveries_set = (defaults_set cfg).0;
      flush_set = (defaults_set cfg).1;
      queue_named = λ e. ground (arith, p.queue);
      dlq_named = λ e. ground (arith, p.dlq);
      no_email = p.email;
      site_resolves = λ on.
          let ((targets, name), e) = enabled_ok c.providers.site.enabled _ p.site on in
          (
            targets,
            name,
            e,
            (effective_targets_solid c.providers.site c.redis.prefix targets name
                (defaults_set cfg).2 e).1,
          );
      telegram_resolves = λ on.
          let ((bots, name), e) = enabled_ok c.providers.telegram.enabled _ p.telegram on in
          (bots, name, e, (effective_bots_usable c.providers.telegram bots name e).1);
    }

-- A configuration that LoadFromBytes accepts gives the buffer and the workers exactly as asked, a
-- batch of at least one, a limit on redeliveries and a flush interval that are not zero, names for
-- both queues, no email, and, for the site and Telegram where they are enabled, targets with prefixes
-- and bots with a token and an address.
pub load_from_bytes-IsSound :
    (contacts : Contacts) (parse : Text → Result Config) (bytes : Text) (cfg : Config)
    → load_from_bytes contacts parse bytes ≡ ok cfg
    → IsSound cfg
unfolding load_from_bytes
load_from_bytes-IsSound contacts parse bytes cfg h = elim (Result-cases (parse bytes)) [
  | inl (e, bad) ↦ absurd (ground arith)
  | inr (raw, good) ↦
      let (fine, (w, same)) = validate_fields contacts (defaults raw) cfg (ground arith) in
      let v = Passed-IsSound raw (checks-Passed (defaults raw) fine) in
      subst IsSound (sym same) (record {
        buffer_as_asked = v.buffer_as_asked;
        workers_as_asked = v.workers_as_asked;
        batch_positive = v.batch_positive;
        redeliveries_set = v.redeliveries_set;
        flush_set = v.flush_set;
        queue_named = v.queue_named;
        dlq_named = v.dlq_named;
        no_email = v.no_email;
        site_resolves = v.site_resolves;
        telegram_resolves = v.telegram_resolves;
      })
]
