-- ===== src/Vapid.antt =====
-- internal/provider/webpush/auth.go: the Authorization header of a push message, and its cache. Times
-- and durations are in seconds. Parsing of URLs, base64, the elliptic curve and the signing of the
-- token are the operations of `Crypto`.
pub mod Subject
pub mod Cache
use csar_notify.Base.{
  Bool, Dict, Option, Result, Text, [], codes, drop, drop_bytes, err, false, has_prefix,
  if◌then◌else◌, insert, is_empty, length, lookup, lower, ltb, map, none, not, ok, plain, some,
  take, trim_space, wrapped, wrapped_nil, ℕ, ◌*◌, ◌++◌, ◌+◌, ◌-◌, ◌==◌, ◌||◌, ◌∷◌,
}

-- What `url.Parse` finds.
pub record Url : Type 0 where
  pub scheme : Text
  pub host : Text

-- An ecdsa.PrivateKey of the curve P-256.
pub record PrivateKey : Type 0 where
  pub x : ℕ
  pub y : ℕ
  pub d : ℕ

-- The claims "aud", "exp" and "sub".
pub record Claims : Type 0 where
  pub aud : Text
  pub exp : ℕ
  pub sub : Text

-- A key's bytes are a text. `public_key_of` is P256().NewPrivateKey(…).PublicKey().Bytes().
pub record Crypto : Type 0 where
  pub parse_url : Text → Result Url
  pub raw_url_decode : Text → Result Text
  pub url_decode : Text → Result Text
  pub raw_url_encode : Text → Text
  pub public_key_of : Text → Result Text
  pub sign : Claims → PrivateKey → Result Text

abbrev pub vapid_auth_lifetime : ℕ
vapid_auth_lifetime = 43200

abbrev pub vapid_auth_refresh_skew : ℕ
vapid_auth_refresh_skew = 900

abbrev pub https : Text
https = codes "https://"

abbrev pub mailto : Text
mailto = codes "mailto:"

-- The part after "mailto:".
unfoldable pub mailto_subject : Text → Result Text
mailto_subject value =
    if is_empty value
    then err (plain (codes "subscriber mailto target is required"))
    else ok (mailto ++ value)

unfoldable pub vapid_subject : Text → Result Text
vapid_subject raw =
    let subscriber = trim_space raw in
    if is_empty subscriber
    then err (plain (codes "subscriber is required"))
    else if has_prefix (map lower subscriber) https
    then ok subscriber
    else if has_prefix (map lower subscriber) mailto
    then mailto_subject (trim_space (drop_bytes 7 subscriber))
    else ok (mailto ++ subscriber)

-- SetBytes of a big.Int
unfoldable pub big_endian : ℕ → Text → ℕ
big_endian acc [] = acc
big_endian acc (b ∷ bytes) = big_endian (acc * 256 + b) bytes

-- publicKey[0] == 4
abbrev pub starts_with_4 : Text → Bool
starts_with_4 [] = false
starts_with_4 (b ∷ bytes) = b == 4

module _ (crypto : Crypto) where
  unfoldable pub push_service_audience : Text → Result Text
  push_service_audience endpoint = elim (crypto.parse_url endpoint) [
    | err e ↦ err (wrapped (codes "parse push endpoint") e)
    | ok u ↦
        if is_empty u.scheme || is_empty u.host
        then err (wrapped_nil (codes "parse push endpoint"))
        else ok (u.scheme ++ codes "://" ++ u.host)
  ]

  unfoldable pub decode_vapid_key : Text → Result Text
  decode_vapid_key key = elim (crypto.raw_url_decode (trim_space key)) [
    | ok decoded ↦ ok decoded
    | err e ↦ crypto.url_decode (trim_space key)
  ]

  unfoldable pub vapid_private_key_to_ecdsa : Text → Result PrivateKey
  vapid_private_key_to_ecdsa private_key = elim (crypto.public_key_of private_key) [
    | err e ↦ err e
    | ok public_key ↦
        if not (length public_key == 65) || not (starts_with_4 public_key)
        then err (plain (codes "decode VAPID public key"))
        else ok (record {
          x = big_endian 0 (take 32 (drop 1 public_key));
          y = big_endian 0 (drop 33 public_key);
          d = big_endian 0 private_key;
        })
  ]

  -- The header, once the keys are decoded.
  unfoldable pub signed_header : Claims → Text → Text → Result Text
  signed_header claims decoded_private decoded_public =
      elim (vapid_private_key_to_ecdsa decoded_private) [
        | err e ↦ err (wrapped (codes "derive VAPID signing key") e)
        | ok signing_key ↦ elim (crypto.sign claims signing_key) [
          | err e ↦ err (wrapped (codes "sign VAPID JWT") e)
          | ok jwt ↦
              ok (codes "vapid t=" ++ jwt ++ codes ", k=" ++ crypto.raw_url_encode decoded_public)
        ]
      ]

  unfoldable pub decode_and_sign : Claims → Text → Text → Result Text
  decode_and_sign claims public_key private_key = elim (decode_vapid_key private_key) [
    | err e ↦ err (wrapped (codes "decode VAPID private key") e)
    | ok decoded_private ↦ elim (decode_vapid_key public_key) [
      | err e ↦ err (wrapped (codes "decode VAPID public key") e)
      | ok decoded_public ↦ signed_header claims decoded_private decoded_public
    ]
  ]

  -- buildVAPIDAuthorizationHeader; an expiration that is the zero time is taken from the clock.
  unfoldable pub build_header : ℕ → Text → Text → Text → Text → ℕ → Result Text
  build_header now audience subscriber public_key private_key expiration =
      let exp = if expiration == 0 then now + vapid_auth_lifetime else expiration in
      elim (vapid_subject subscriber) [
        | err e ↦ err e
        | ok subject ↦
            decode_and_sign (record { aud = audience; exp = exp; sub = subject }) public_key
              private_key
      ]

-- type cachedAuthorizationHeader struct
pub record Cached : Type 0 where
  pub header : Text
  pub refresh_after : ℕ

-- type authHTTPClient struct, without its transport: the keys and the subscriber are trimmed.
pub record Client : Type 0 where
  pub subscriber : Text
  pub public_key : Text
  pub private_key : Text

unfoldable pub new_client : Text → Text → Text → Client
new_client subscriber public_key private_key = record {
  subscriber = trim_space subscriber;
  public_key = trim_space public_key;
  private_key = trim_space private_key;
}

unfoldable pub cache_key : Client → Text → Text
cache_key c audience = audience ++ (10 ∷ c.subscriber ++ (10 ∷ c.public_key))

-- A cached header that is still fresh.
abbrev pub if_fresh : ℕ → Option Cached → Option Text
if_fresh now none = none
if_fresh now (some cached) = if ltb now cached.refresh_after then some cached.header else none

unfoldable pub fresh_header : ℕ → Text → Dict Cached → Option Text
fresh_header now key headers = if_fresh now (lookup key headers)

-- The entry for a header that was built at `now`.
abbrev pub entry_at : ℕ → Text → Cached
entry_at now header = record {
  header = header;
  refresh_after = now + vapid_auth_lifetime - vapid_auth_refresh_skew;
}

module _ (crypto : Crypto) (c : Client) where
  unfoldable pub build_at : ℕ → Text → Result Text
  build_at now audience =
      build_header crypto now audience c.subscriber c.public_key c.private_key
        (now + vapid_auth_lifetime)

  -- What follows a miss.
  unfoldable pub refresh : ℕ → Text → Dict Cached → Result Text × Dict Cached
  refresh now audience headers = elim (build_at now audience) [
    | err e ↦ (err e, headers)
    | ok header ↦ (ok header, insert (cache_key c audience) (entry_at now header) headers)
  ]

  unfoldable pub authorization_header : ℕ → Text → Dict Cached → Result Text × Dict Cached
  authorization_header now endpoint headers = elim (push_service_audience crypto endpoint) [
    | err e ↦ (err e, headers)
    | ok audience ↦ elim (fresh_header now (cache_key c audience) headers) [
      | some header ↦ (ok header, headers)
      | none ↦ refresh now audience headers
    ]
  ]
