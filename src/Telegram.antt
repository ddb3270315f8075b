-- ===== src/Telegram.antt =====
-- internal/provider/telegram/telegram.go: one message by the Bot API for each notification. Outside:
-- `json.Unmarshal` of the preference, `json.Marshal` of the message, `http.NewRequestWithContext`,
-- and the HTTP client. The numbers and quotes in the texts of errors are left out.
pub mod Bots
use csar_notify.Base.{
  Dict, GoError, Option, Result, Text, [], codes, err, if◌then◌else◌, is_empty, leb, lookup, ltb,
  none, not, ok, plain, some, trim_space, wrapped, ℕ, ◌&&◌, ◌++◌, ◌==◌, ◌∷◌,
}
use csar_notify.Domain.{Notification, channel_telegram}
use csar_notify.Provider.{Provider}

-- type botConfig
pub record BotConfig : Type 0 where
  pub token : Text
  pub api_base_url : Text

-- type Provider struct, without the client and the logger
pub record Telegram : Type 0 where
  pub bots : Dict BotConfig
  pub default_bot : Text

-- `pref` of Send
pub record Pref : Type 0 where
  pub chat_id : Text
  pub bot : Text

-- What the client's Do returns; of a response, the status and what was read of the body.
pub data Answer : Type 0 where
  failed : GoError → Answer
  answered : ℕ → Text → Answer

-- strings.TrimRight(s, "/")
unfoldable pub trim_slashes : Text → Text
trim_slashes [] = []
trim_slashes (c ∷ s) =
    let rest = trim_slashes s in if is_empty rest && c == 47 then [] else c ∷ rest

abbrev pub telegram_api : Text
telegram_api = codes "https://api.telegram.org"

unfoldable pub resolve_bot : BotConfig → BotConfig
resolve_bot bot =
    let url = trim_slashes (trim_space bot.api_base_url) in
    record bot { api_base_url = if is_empty url then telegram_api else url }

unfoldable pub resolve_bots : Dict BotConfig → Dict BotConfig
unfolding resolve_bot
resolve_bots [] = []
resolve_bots ((name, bot) ∷ rest) = (name, resolve_bot bot) ∷ resolve_bots rest

-- New, on the result of EffectiveBots
unfoldable pub new_telegram : Result (Dict BotConfig × Text) → Result Telegram
new_telegram (err e) = err e
new_telegram (ok (bots, default_bot)) =
    ok (record { bots = resolve_bots bots; default_bot = default_bot })

-- A part of the message after the title.
abbrev pub paragraph : Text → Text
paragraph part = if is_empty (trim_space part) then [] else 10 ∷ 10 ∷ part

unfoldable pub render_message : Notification → Text
render_message n = n.title ++ paragraph n.body ++ paragraph n.link

-- m[k] of a map of texts
abbrev pub entry : Text → Dict Text → Text
entry k m = elim (lookup k m) [ none ↦ [] | some v ↦ v ]

unfoldable pub bot_name : Telegram → Notification → Pref → Text
bot_name p n pref =
    let preferred = trim_space pref.bot in
    let by_metadata = trim_space (entry (codes "telegram_bot") n.metadata) in
    let chosen = if is_empty preferred then by_metadata else preferred in
    if is_empty chosen then p.default_bot else chosen

-- The error of an answer.
unfoldable pub check_answer : Answer → Option GoError
check_answer (failed e) = some (wrapped (codes "telegram send") e)
check_answer (answered status payload) =
    if leb 200 status && ltb status 300
    then none
    else some (plain (codes "telegram send unexpected status: " ++ trim_space payload))

module _ {W : Type 0} (p : Telegram) (decode_pref : Text → Result Pref)
    (encode_message : Text → Text → Result Text) (new_request_error : Text → Option GoError)
    (post : Text → Text → W → Answer × W) where
  unfoldable pub decode : Text → Text → Result Pref
  decode recipient [] = ok (record { chat_id = []; bot = [] })
  decode recipient (c ∷ pref_config) = elim (decode_pref (c ∷ pref_config)) [
    | ok pref ↦ ok pref
    | err e ↦ err (wrapped (codes "decode telegram preference for " ++ recipient) e)
  ]

  abbrev pub url_of : BotConfig → Text
  url_of bot = bot.api_base_url ++ codes "/bot" ++ bot.token ++ codes "/sendMessage"

  unfoldable pub send_with : BotConfig → Text → Notification → W → Option GoError × W
  send_with bot chat_id n w = elim (encode_message chat_id (render_message n)) [
    | err e ↦ (some (wrapped (codes "marshal telegram message") e), w)
    | ok body ↦ elim (new_request_error (url_of bot)) [
      | some e ↦ (some (wrapped (codes "build telegram request") e), w)
      | none ↦ let (a, w') = post (url_of bot) body w in (check_answer a, w')
    ]
  ]

  unfoldable pub send_pref : Notification → Text → Pref → W → Option GoError × W
  send_pref n recipient pref w =
      if is_empty (trim_space pref.chat_id)
      then (some (plain (codes "telegram chat_id is missing for recipient " ++ recipient)), w)
      else elim (lookup (bot_name p n pref) p.bots) [
        | none ↦ (
          some (plain (codes "telegram bot " ++ bot_name p n pref ++ codes " is not configured")),
          w,
        )
        | some bot ↦ send_with bot pref.chat_id n w
      ]

  unfoldable pub send : Notification → Text → Text → W → Option GoError × W
  send n recipient pref_config w = elim (decode recipient pref_config) [
    | err e ↦ (some e, w)
    | ok pref ↦ send_pref n recipient pref w
  ]

  -- The provider; Close does nothing.
  unfoldable pub telegram : Provider W
  telegram = record {
    name = codes "telegram";
    channel = channel_telegram;
    send = send;
    close = λ w. (none, w);
  }
