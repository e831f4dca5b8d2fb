-- ===== src/Share/Sanitize.antt =====
-- What a shared configuration holds.
use mathlib.Core.Option
use socket_tester.Base.{
  ℕ, ◌∙◌, ne_of_text_eq, text_eq_refl, lookup-insert_self, ◌≡◌, ◌≢◌, refl, some, none, Text,
  text_eq, text_eq_iff, lit, arith, Option-cases, inl, inr,
}
use socket_tester.Json.{obj, Fields, get_field, delete_field, set_field}
use socket_tester.Json.Laws.{get_field-delete_field, get_field-set_field}
use socket_tester.Share.{
  spread, without_auth_secrets, sanitize_auth, sanitize_inner, sanitize, ShareState, token_of,
  create_share, get_share,
}

-- The field is absent.
abbrev pub Lacks : Text → Fields → Type 0
Lacks k fs = get_field k fs ≡ none

without_auth_secrets-Lacks :
    (fs : Fields)
    → Lacks (lit "token") (without_auth_secrets fs)
      × Lacks (lit "password") (without_auth_secrets fs)
      × Lacks (lit "apiKeyValue") (without_auth_secrets fs)
unfolding without_auth_secrets text_eq lit
without_auth_secrets-Lacks fs =
    (simp get_field-delete_field, simp get_field-delete_field, simp get_field-delete_field)

without_auth_secrets_keeps :
    (k : Text) (fs : Fields)
    → k ≢ lit "token"
    → k ≢ lit "password"
    → k ≢ lit "apiKeyValue"
    → get_field k (without_auth_secrets fs) ≡ get_field k fs
unfolding without_auth_secrets
without_auth_secrets_keeps k fs a b c = ground (
  arith,
  get_field-delete_field k (lit "apiKeyValue")
      (delete_field (lit "password") (delete_field (lit "token") fs)),
  get_field-delete_field k (lit "password") (delete_field (lit "token") fs),
  get_field-delete_field k (lit "token") fs,
  text_eq_iff (lit "apiKeyValue") k,
  text_eq_iff (lit "password") k,
  text_eq_iff (lit "token") k,
)

-- The stored inner configuration against the one that was given.
pub record IsStripped (given stored : Fields) : Type 0 where
  pub no_password : Lacks (lit "password") stored
  pub no_api_key : Lacks (lit "apiKeyValue") stored
  pub others :
      (k : Text)
      → k ≢ lit "password"
      → k ≢ lit "apiKeyValue"
      → k ≢ lit "auth"
      → get_field k stored ≡ get_field k given
  pub auth :
      (a : Fields)
      → get_field (lit "auth") given ≡ some (obj a)
      → get_field (lit "auth") stored ≡ some (obj (without_auth_secrets a))

sanitize_auth_other :
    (k : Text) (fs : Fields) → k ≢ lit "auth" → get_field k (sanitize_auth fs) ≡ get_field k fs
unfolding sanitize_auth
sanitize_auth_other k fs h = elim (Option-cases (Option.bind (get_field (lit "auth") fs) spread)) [
  | inl e ↦ rw (e, sanitize_auth)
  | inr (a, e) ↦
      rw (e, sanitize_auth)
        (ground (
          arith,
          get_field-set_field k (lit "auth") (obj (without_auth_secrets a)) fs,
          text_eq_iff (lit "auth") k,
        ))
]

sanitize_auth_auth :
    (fs a : Fields)
    → get_field (lit "auth") fs ≡ some (obj a)
    → get_field (lit "auth") (sanitize_auth fs) ≡ some (obj (without_auth_secrets a))
unfolding sanitize_auth Option.bind spread
sanitize_auth_auth fs a e =
    rw (e, sanitize_auth, Option.bind)
      (rw get_field-set_field (ground (arith, text_eq_iff (lit "auth") (lit "auth"))))

stripped_keeps :
    (k : Text) (fs : Fields)
    → k ≢ lit "password"
    → k ≢ lit "apiKeyValue"
    → get_field k (delete_field (lit "apiKeyValue") (delete_field (lit "password") fs))
      ≡ get_field k fs
stripped_keeps k fs a b = ground (
  arith,
  get_field-delete_field k (lit "apiKeyValue") (delete_field (lit "password") fs),
  get_field-delete_field k (lit "password") fs,
  text_eq_iff (lit "apiKeyValue") k,
  text_eq_iff (lit "password") k,
)

password-ne-auth : lit "password" ≢ lit "auth"
unfolding text_eq lit
password-ne-auth = ne_of_text_eq (lit "password") (lit "auth") refl

api_key-ne-auth : lit "apiKeyValue" ≢ lit "auth"
unfolding text_eq lit
api_key-ne-auth = ne_of_text_eq (lit "apiKeyValue") (lit "auth") refl

auth-ne-password : lit "auth" ≢ lit "password"
unfolding text_eq lit
auth-ne-password = ne_of_text_eq (lit "auth") (lit "password") refl

auth-ne-api_key : lit "auth" ≢ lit "apiKeyValue"
unfolding text_eq lit
auth-ne-api_key = ne_of_text_eq (lit "auth") (lit "apiKeyValue") refl

stripped-Lacks :
    (fs : Fields)
    → Lacks (lit "password") (delete_field (lit "apiKeyValue") (delete_field (lit "password") fs))
      × Lacks
          (lit "apiKeyValue")
          (delete_field (lit "apiKeyValue") (delete_field (lit "password") fs))
unfolding text_eq lit
stripped-Lacks fs = (simp get_field-delete_field, simp get_field-delete_field)

sanitize_inner-IsStripped : (fs : Fields) → IsStripped fs (sanitize_inner fs)
unfolding sanitize_inner
sanitize_inner-IsStripped fs =
    let cut = delete_field (lit "apiKeyValue") (delete_field (lit "password") fs) in
    record {
      no_password =
          sanitize_auth_other (lit "password") cut password-ne-auth ∙ (stripped-Lacks fs).0;
      no_api_key =
          sanitize_auth_other (lit "apiKeyValue") cut api_key-ne-auth ∙ (stripped-Lacks fs).1;
      others = λ k a b c. sanitize_auth_other k cut c ∙ stripped_keeps k fs a b;
      auth = λ a e.
          sanitize_auth_auth cut a
            (stripped_keeps (lit "auth") fs auth-ne-password auth-ne-api_key ∙ e);
    }

sanitize_config :
    (config inner : Fields)
    → get_field (lit "config") config ≡ some (obj inner)
    → sanitize config ≡ set_field (lit "config") (obj (sanitize_inner inner)) config
unfolding sanitize Option.bind spread
sanitize_config config inner e = rw (e, sanitize, Option.bind)

-- Where the given configuration has an object `config`, what a reader gets under the new token has
-- it without its password and API key; every other field `k` of that object but `auth` is as it was
-- given, and so is every other field `j` of the configuration.
pub get_share-create_share :
    (ttl : ℕ) (uuid j k : Text) (config inner : Fields) (now : ℕ) (st : ShareState)
    → get_field (lit "config") config ≡ some (obj inner)
    → j ≢ lit "config"
    → k ≢ lit "password"
    → k ≢ lit "apiKeyValue"
    → k ≢ lit "auth"
    → (kept : Fields) × (stored : Fields) × (get_share
          (token_of uuid)
          (create_share ttl uuid config now st).0
        ≡ some kept)
      × (get_field (lit "config") kept ≡ some (obj stored))
      × Lacks (lit "password") stored
      × Lacks (lit "apiKeyValue") stored
      × (get_field k stored ≡ get_field k inner)
      × (get_field j kept ≡ get_field j config)
unfolding create_share get_share
get_share-create_share ttl uuid j k config inner now st e h a b c =
    let v = sanitize_inner-IsStripped inner in
    (
      sanitize config,
      sanitize_inner inner,
      rw (lookup-insert_self, Option.map),
      rw (sanitize_config config inner e) (rw get_field-set_field (rw text_eq_refl)),
      v.no_password,
      v.no_api_key,
      v.others k a b c,
      rw (sanitize_config config inner e) (
          ground (
            arith,
            get_field-set_field j (lit "config") (obj (sanitize_inner inner)) config,
            text_eq_iff (lit "config") j,
          )),
    )

-- The stored `config.auth` is the given one without its token, password and API key, and with every
-- other field `k`.
pub sanitize_auth_lem :
    (k : Text) (config inner a : Fields)
    → get_field (lit "config") config ≡ some (obj inner)
    → get_field (lit "auth") inner ≡ some (obj a)
    → k ≢ lit "token"
    → k ≢ lit "password"
    → k ≢ lit "apiKeyValue"
    → (stored : Fields) × (b : Fields) × (get_field (lit "config") (sanitize config)
        ≡ some (obj stored))
      × (get_field (lit "auth") stored ≡ some (obj b))
      × Lacks (lit "token") b
      × Lacks (lit "password") b
      × Lacks (lit "apiKeyValue") b
      × (get_field k b ≡ get_field k a)
sanitize_auth_lem k config inner a e f h i j =
    let (t, p, q) = without_auth_secrets-Lacks a in
    (
      sanitize_inner inner,
      without_auth_secrets a,
      rw (sanitize_config config inner e) (rw get_field-set_field (rw text_eq_refl)),
      (sanitize_inner-IsStripped inner).auth a f,
      t,
      p,
      q,
      without_auth_secrets_keeps k a h i j,
    )
