-- ===== src/Dispatch.antt =====
-- internal/dispatch/dispatcher.go. The state is the world `W`, which the store and the providers
-- act on, with the two counters: the labels with which each was incremented, oldest first.
pub mod Channels
pub mod Trace
pub mod Attempts
use csar_notify.Base.{
  Bool, Dict, GoError, List, Option, Result, Text, [], codes, err, if◌then◌else◌, insert,
  join_failure, lookup, none, not, ok, some, wrapped, ◌++◌, ◌||◌, ◌∷◌,
}
use csar_notify.Domain.{
  Notification, Preference, ResolvedPreference, channel_site, topic_matches, validate_notification,
}
use csar_notify.Provider.{Provider}
use csar_notify.Provider.Registry.{get}

-- type storeAccessor interface. UpsertNotification sets the id and the creation time.
pub record StoreAccessor (W : Type 0) : Type 0 where
  pub upsert_notification : Notification → W → Result Notification × W
  pub list_topic_subscribers : Text → W → Result (List Text) × W
  pub get_preferences : Text → W → Result (List Preference) × W

pub record State (W : Type 0) : Type 0 where
  pub world : W
  pub provider_sends : List Text
  pub provider_errors : List Text

-- type Dispatcher struct, without its logger
pub record Dispatcher (W : Type 0) : Type 0 where
  pub store : StoreAccessor W
  pub providers : Option (Dict (Provider W))

-- The loop that fills `byChannel`.
unfoldable pub index_by_channel : Dict Preference → List Preference → Dict Preference
index_by_channel by_channel [] = by_channel
index_by_channel by_channel (pref ∷ rest) =
    index_by_channel (insert pref.channel pref by_channel) rest

-- The round of the loop over the notification's own channels; a nil config is the empty text.
unfoldable pub explicit_target : Text → Option Preference → Option ResolvedPreference
explicit_target channel none = some (record { channel = channel; config = [] })
explicit_target channel (some pref) =
    if not pref.enabled then none else some (record { channel = channel; config = pref.config })

abbrev pub keep_some {ℓ} : {A : Type ℓ} → Option A → List A → List A
keep_some none rest = rest
keep_some (some a) rest = a ∷ rest

unfoldable pub explicit_targets : Dict Preference → List Text → List ResolvedPreference
explicit_targets by_channel [] = []
explicit_targets by_channel (channel ∷ rest) =
    keep_some (explicit_target channel (lookup channel by_channel))
      (explicit_targets by_channel rest)

-- The loop over the recipient's preferences.
unfoldable pub preferred_targets : Text → List Preference → List ResolvedPreference
preferred_targets topic [] = []
preferred_targets topic (pref ∷ rest) =
    let others = preferred_targets topic rest in
    if not pref.enabled || not (topic_matches pref.topics topic)
    then others
    else record { channel = pref.channel; config = pref.config } ∷ others

-- resolveChannels after the read of the preferences: by the notification's own channels, or, if it
-- names none, by the preferences and its topic.
unfoldable pub targets_by_mode : List Text → List Preference → Text → List ResolvedPreference
targets_by_mode (channel ∷ channels) prefs topic =
    explicit_targets (index_by_channel [] prefs) (channel ∷ channels)
targets_by_mode [] [] topic = record { channel = channel_site; config = [] } ∷ []
targets_by_mode [] (pref ∷ prefs) topic = preferred_targets topic (pref ∷ prefs)

unfoldable pub targets_for : List Preference → Notification → List ResolvedPreference
targets_for prefs n = targets_by_mode n.channels prefs n.topic

-- fmt.Errorf("prefix: %w", err) on an error that may be nil
abbrev pub wrap : Text → Option GoError → Option GoError
wrap prefix none = none
wrap prefix (some e) = some (wrapped prefix e)

abbrev counted_error : Text → Option GoError → List Text → List Text
counted_error channel none labels = labels
counted_error channel (some e) labels = labels ++ channel ∷ []

module _ {W : Type 0} (d : Dispatcher W) where
  unfoldable pub resolve_channels :
      Text → Notification → State W → Result (List ResolvedPreference) × State W
  resolve_channels recipient n s =
      let (r, w) = d.store.get_preferences recipient s.world in
      (elim r [ ok prefs ↦ ok (targets_for prefs n) | err e ↦ err e ], record s { world = w })

  unfoldable pub resolve_recipients : Notification → State W → Result (List Text) × State W
  resolve_recipients n s = elim n.recipients [
    | recipient ∷ rest ↦ (ok (recipient ∷ rest), s)
    | [] ↦
        let (r, w) = d.store.list_topic_subscribers n.topic s.world in
        (
          elim r [
            | ok subjects ↦ ok subjects
            | err e ↦ err (wrapped (codes "list topic subscribers") e)
          ],
          record s { world = w },
        )
  ]

  -- One call of `prov.Send`, with its two counters.
  unfoldable pub attempt :
      Notification → Text → ResolvedPreference → Provider W → State W → Option GoError × State W
  attempt n recipient target prov s =
      let (e, w) = prov.send n recipient target.config s.world in
      (
        wrap (target.channel ++ codes " send to " ++ recipient) e,
        record {
          world = w;
          provider_sends = s.provider_sends ++ target.channel ∷ [];
          provider_errors = counted_error target.channel e s.provider_errors;
        },
      )

  -- The inner loop. `send_err` is the error joined so far; a nil one joins nothing.
  unfoldable pub send_targets :
      Notification
      → Text
      → List ResolvedPreference
      → Option GoError
      → State W
      → Option GoError × State W
  send_targets n recipient [] send_err s = (send_err, s)
  send_targets n recipient (target ∷ rest) send_err s = elim (get d.providers target.channel) [
    | none ↦ send_targets n recipient rest send_err s
    | some prov ↦
        let (e, s') = attempt n recipient target prov s in
        send_targets n recipient rest (join_failure send_err e) s'
  ]

  -- The loop over the recipients.
  unfoldable pub send_recipients :
      Notification → List Text → Option GoError → State W → Option GoError × State W
  send_recipients n [] send_err s = (send_err, s)
  send_recipients n (recipient ∷ rest) send_err s =
      let (r, s') = resolve_channels recipient n s in
      elim r [
        | err e ↦
            send_recipients n rest
              (join_failure send_err (wrap (codes "resolve channels for " ++ recipient) (some e)))
              s'
        | ok resolved ↦
            let (send_err', s'') = send_targets n recipient resolved send_err s' in
            send_recipients n rest send_err' s''
      ]

  -- What follows the persisting of the notification.
  unfoldable pub deliver : Notification → State W → Option GoError × State W
  deliver n s =
      let (r, s') = resolve_recipients n s in
      elim r [ err e ↦ (some e, s') | ok recipients ↦ send_recipients n recipients none s' ]

  unfoldable pub persist_and_deliver : Notification → State W → Option GoError × State W
  persist_and_deliver n s =
      let (r, w) = d.store.upsert_notification n s.world in
      let s' = record s { world = w } in
      elim r [
        | err e ↦ (some (wrapped (codes "persist notification") e), s')
        | ok stored ↦ deliver stored s'
      ]

  unfoldable pub dispatch : (Text → Bool) → Notification → State W → Option GoError × State W
  dispatch uuid_valid n s =
      let (e, m) = validate_notification uuid_valid n in
      elim e [
        | some invalid ↦ (some (wrapped (codes "dispatch validate notification") invalid), s)
        | none ↦ persist_and_deliver m s
      ]
