-- ===== src/AccessTokens/Acceptance.antt =====
-- What an accepted access token is, in packages/core/src/services/token.service.ts.
use pezhwan.Base.{ℕ, ◌/◌, ◌<◌, ◌≡◌, false, List, some, find}
use pezhwan.SigningKeys.{SigningKey, by_kid, is_revoked}
use pezhwan.AccessTokens.{
  Claims, Header, Token, Service, Libraries, expected, header_part, material_of,
}
use pezhwan.AccessTokens.Checked.{Checked}

module _ (service : Service) (lib : Libraries) where
  -- The header names a held key that is neither revoked nor expired and with whose texts the token has
  -- passed as one of the claims.
  pub record IsSigned (t : Token lib) (now : ℕ) (l : List SigningKey) (c : Claims) : Type 0 where
    pub key : SigningKey
    pub header : Header
    pub parsed : header_part service lib t ≡ some header
    pub names : header.kid ≡ some key.kid
    pub held : find (by_kid key.kid) l ≡ some key
    pub alive : is_revoked key.status ≡ false
    pub in_time : now < key.expires_at
    pub passed :
        Checked lib (material_of service lib key) key (expected service lib) (now / 1000) t c
