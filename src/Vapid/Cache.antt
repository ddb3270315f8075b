-- ===== src/Vapid/Cache.antt =====
-- internal/provider/webpush/auth.go: the headers that concurrent requests find in the cache.
use csar_notify.Base.{
  All, Dict, List, Text, [], codes, insert, lookup, none, ok, some, ℕ, ◌++◌, ◌+◌, ◌∷◌, ◌≡◌,
}
use csar_notify.Vapid.{
  Crypto, Client, Cached, push_service_audience, cache_key, fresh_header, entry_at, build_at,
  vapid_auth_refresh_skew, Claims, PrivateKey, vapid_subject, decode_vapid_key,
  vapid_private_key_to_ecdsa,
}

module _ (crypto : Crypto) (c : Client) where
  -- The header holds a token that is signed with the client's own key, and whose claims name the
  -- audience, the time at which it expires and the subscriber; and the client's public key.
  pub record BuiltFor (audience : Text) (expiration : ℕ) (header : Text) : Type 0 where
    pub claims : Claims
    pub signing_key : PrivateKey
    pub private_bytes : Text
    pub public_bytes : Text
    pub jwt : Text
    pub aud : claims.aud ≡ audience
    pub exp : claims.exp ≡ expiration
    pub sub : vapid_subject c.subscriber ≡ ok claims.sub
    pub private_decoded : decode_vapid_key crypto c.private_key ≡ ok private_bytes
    pub key : vapid_private_key_to_ecdsa crypto private_bytes ≡ ok signing_key
    pub public_decoded : decode_vapid_key crypto c.public_key ≡ ok public_bytes
    pub signed : crypto.sign claims signing_key ≡ ok jwt
    pub text :
        header ≡ codes "vapid t=" ++ jwt ++ codes ", k=" ++ crypto.raw_url_encode public_bytes

  -- The mutex is free while a header is built, so other requests come between the look-up and the
  -- store: what is built waits in `pending`.
  pub record Shared : Type 0 where
    pub headers : Dict Cached
    pub pending : List (Text × Cached)

  pub data Step (s t : Shared) : Type 0 where
    misses :
        (now : ℕ) (endpoint audience header : Text)
        → push_service_audience crypto endpoint ≡ ok audience
        → fresh_header now (cache_key c audience) s.headers ≡ none
        → build_at crypto c now audience ≡ ok header
        → t ≡ record s { pending = (cache_key c audience, entry_at now header) ∷ s.pending }
        → Step s t
    stores :
        (key : Text) (entry : Cached) (before after : List (Text × Cached))
        → s.pending ≡ before ++ (key, entry) ∷ after
        → t ≡ record { headers = insert key entry s.headers; pending = before ++ after }
        → Step s t

  pub data Reach : Shared → Type 0 where
    here : Reach (record { headers = []; pending = [] })
    next : {s t : Shared} → Reach s → Step s t → Reach t

  -- An entry for its key is of an audience, and is to be refreshed before it expires.
  abbrev IsSound : Text → Cached → Type 0
  IsSound key entry =
      (audience : Text) × (expiration : ℕ) × (key ≡ cache_key c audience)
      × BuiltFor audience expiration entry.header
      × (entry.refresh_after + vapid_auth_refresh_skew ≡ expiration)

  abbrev AllSound : List (Text × Cached) → Type 0
  AllSound = All (λ (e : Text × Cached). IsSound e.0 e.1)

  record Inv (s : Shared) : Type 0 where
    cached : (key : Text) (entry : Cached) → lookup key s.headers ≡ some entry → IsSound key entry
    waiting : AllSound s.pending
