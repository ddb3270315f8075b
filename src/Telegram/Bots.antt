-- ===== src/Telegram/Bots.antt =====
-- internal/provider/telegram/telegram.go: which bot sends, and when a message goes out.
use csar_notify.Base.{
  Bool-cases, GoError, List, Option, Option-cases, Result, Result-cases, Text, [], ap, arith, codes,
  false, if◌then◌else◌, inl, inr, is_empty, lookup, none, ok, plain, refl, some, trim_space,
  wrapped, ◌++◌, ◌∙◌, ◌∷◌, ◌≡◌, ◌⊎◌,
}
use csar_notify.Domain.{Notification}
use csar_notify.Telegram.{
  BotConfig, Telegram, Pref, Answer, entry, bot_name, render_message, decode, check_answer, send,
  send_pref, send_with,
}

-- The first name that is not empty, or the last one.
abbrev pub first_of : List Text → Text → Text
first_of [] last = last
first_of (x ∷ xs) last = if is_empty x then first_of xs last else x

bot_name_lem :
    (p : Telegram) (n : Notification) (pref : Pref)
    → bot_name p n pref
      ≡ first_of
          (trim_space pref.bot ∷ trim_space (entry (codes "telegram_bot") n.metadata) ∷ [])
          p.default_bot
unfolding bot_name
bot_name_lem p n pref = ground arith

module _ {W : Type 0} (p : Telegram) (decode_pref : Text → Result Pref)
    (encode_message : Text → Text → Result Text) (new_request_error : Text → Option GoError)
    (post : Text → Text → W → Answer × W) where
  -- The name of the bot that is to send.
  abbrev pub chosen_name : Notification → Pref → Text
  chosen_name n pref =
      first_of (trim_space pref.bot ∷ trim_space (entry (codes "telegram_bot") n.metadata) ∷ [])
        p.default_bot

  -- All that a message needs: a preference that can be read and has a chat id, a bot that is
  -- configured, and a body and a request that can be made.
  pub record Ready (n : Notification) (recipient config : Text) : Type 0 where
    pub pref : Pref
    pub bot : BotConfig
    pub body : Text
    pub decoded :
        decode p decode_pref encode_message new_request_error post recipient config ≡ ok pref
    pub has_chat : is_empty (trim_space pref.chat_id) ≡ false
    pub configured : lookup (chosen_name n pref) p.bots ≡ some bot
    pub encoded : encode_message pref.chat_id (render_message n) ≡ ok body
    pub requested :
        new_request_error (bot.api_base_url ++ codes "/bot" ++ bot.token ++ codes "/sendMessage")
        ≡ none

  abbrev url_for : BotConfig → Text
  url_for bot = bot.api_base_url ++ codes "/bot" ++ bot.token ++ codes "/sendMessage"

  abbrev pub Posted : Text → Text → W → Option GoError × W → Type 0
  Posted url body w result = result ≡ (check_answer (post url body w).0, (post url body w).1)

  send-Ready :
      (n : Notification) (recipient config : Text) (w : W) (r : Ready n recipient config)
      → Posted
          (url_for r.bot)
          r.body
          w
          (send p decode_pref encode_message new_request_error post n recipient config w)
  unfolding send send_pref send_with
  send-Ready n recipient config w r =
      let found = ap (λ (t : Text). lookup t p.bots) (bot_name_lem p n r.pref) ∙ r.configured in
      rw (r.decoded, send)
        (rw (r.has_chat, send_pref)
          (rw (found, send_pref) (rw (r.encoded, send_with) (rw (r.requested, send_with) refl))))

  abbrev pub Refused : W → Option GoError × W → Type 0
  Refused w result = (e : GoError) × (result ≡ (some e, w))

  abbrev Outcome : Notification → Text → Text → W → Type 0
  Outcome n recipient config w =
      Ready n recipient config
      ⊎ (¬ Ready n recipient config
          × Refused w
              (send p decode_pref encode_message new_request_error post n recipient config w))

  -- Once the bot is known.
  bot_cases :
      (n : Notification) (recipient config : Text) (w : W) (pref : Pref) (bot : BotConfig)
      → decode p decode_pref encode_message new_request_error post recipient config ≡ ok pref
      → is_empty (trim_space pref.chat_id) ≡ false
      → lookup (chosen_name n pref) p.bots ≡ some bot
      → Outcome n recipient config w
  unfolding send send_pref send_with
  bot_cases n recipient config w pref bot d b l =
      let name = ap (λ (t : Text). lookup t p.bots) (bot_name_lem p n pref) ∙ l in
      elim (Result-cases (encode_message pref.chat_id (render_message n))) [
        | inl (e, m) ↦ inr (
          λ r. absurd (ground (arith, d, m, r.decoded, r.encoded)),
          (
            wrapped (codes "marshal telegram message") e,
            rw (d, send) (rw (b, send_pref) (rw (name, send_pref) (rw (m, send_with) refl))),
          ),
        )
        | inr (body, m) ↦ elim (Option-cases (new_request_error (url_for bot))) [
          | inl q ↦ inl (record {
            pref = pref;
            bot = bot;
            body = body;
            decoded = d;
            has_chat = b;
            configured = l;
            encoded = m;
            requested = q;
          })
          | inr (e, q) ↦ inr (
            λ r. absurd (ground (arith, d, l, q, r.decoded, r.configured, r.requested)),
            (
              wrapped (codes "build telegram request") e,
              rw (d, send)
                  (rw (b, send_pref)
                    (rw (name, send_pref) (rw (m, send_with) (rw (q, send_with) refl)))),
            ),
          )
        ]
      ]

  send_cases : (n : Notification) (recipient config : Text) (w : W) → Outcome n recipient config w
  unfolding send send_pref
  send_cases n recipient config w =
      elim (Result-cases
        (decode p decode_pref encode_message new_request_error post recipient config)) [
          | inl (e, d) ↦ inr (λ r. cc (d, r.decoded), (e, rw (d, send) refl))
          | inr (pref, d) ↦ elim (Bool-cases (is_empty (trim_space pref.chat_id))) [
            | inl b ↦ inr (
              λ r. absurd (ground (arith, d, b, r.decoded, r.has_chat)),
              (
                plain (codes "telegram chat_id is missing for recipient " ++ recipient),
                rw (d, send) (rw (b, send_pref) refl),
              ),
            )
            | inr b ↦ elim (Option-cases (lookup (chosen_name n pref) p.bots)) [
              | inl l ↦
                  let name = ap (λ (t : Text). lookup t p.bots) (bot_name_lem p n pref) ∙ l in
                  inr (
                    λ r. absurd (ground (arith, d, l, r.decoded, r.configured)),
                    (
                      plain (
                          codes "telegram bot " ++ bot_name p n pref ++ codes " is not configured"),
                      rw (d, send) (rw (b, send_pref) (rw (name, send_pref) refl)),
                    ),
                  )
              | inr (bot, l) ↦ bot_cases n recipient config w pref bot d b l
            ]
          ]
        ]

  -- Either all is there that a message needs, a preference that can be read and has a chat id, a bot
  -- that is configured, and a body and a request that can be made, and then the message is posted
  -- once, by the bot that the preference names, else by the one that the metadata names, else by the
  -- default one, and the error is what the answer makes of it; or something of this is missing, and
  -- then an error is returned and nothing is posted. A name in the metadata does not override the
  -- preference.
  pub send_posts :
      (n : Notification) (recipient config : Text) (w : W)
      → let result =
          send p decode_pref encode_message new_request_error post n recipient config w in
        ((r : Ready n recipient config) × (result ≡ (
          check_answer
              (post
                (r.bot.api_base_url ++ codes "/bot" ++ r.bot.token ++ codes "/sendMessage")
                r.body
                w).0,
          (post
              (r.bot.api_base_url ++ codes "/bot" ++ r.bot.token ++ codes "/sendMessage")
              r.body
              w).1,
        )))
        ⊎ (¬ Ready n recipient config × ((e : GoError) × (result ≡ (some e, w))))
  send_posts n recipient config w = elim (send_cases n recipient config w) [
    | inl r ↦ inl (r, send-Ready n recipient config w r)
    | inr bad ↦ inr bad
  ]
