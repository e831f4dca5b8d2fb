-- ===== src/Tests/Shares.antt =====
-- A shared configuration with credentials.
use socket_tester.Base.{
  timer_delay, ◌≡◌, ◌≢◌, ◌++◌, refl, some, [], ◌∷◌, Text, lit, text_eq, ne_of_text_eq, arith,
}
use socket_tester.Json.{str, obj, Fields, end, field, get_field}
use socket_tester.Share.{ShareState, token_of, create_share, get_share, run_timers, sanitize}
use socket_tester.Share.Sanitize.{Lacks, get_share-create_share}
use socket_tester.Share.Lifetime.{passes, run}
use socket_tester.Share.Routes.{post_config, is_hex, get_token, found, not_found}
use socket_tester.Share.Links.{IsDelay, IsUuid, post_config_lifetime}

abbrev credentials : Fields
credentials = field (lit "token") (str (lit "t")) (field (lit "kind") (str (lit "bearer")) end)

abbrev inner : Fields
inner =
    field (lit "url") (str (lit "ws://h"))
      (field (lit "password") (str (lit "p")) (field (lit "auth") (obj credentials) end))

abbrev config : Fields
config = field (lit "protocol") (str (lit "websocket")) (field (lit "config") (obj inner) end)

abbrev no_shares : ShareState
no_shares = record { shares = []; expiries = [] }

abbrev uuid : Text
uuid = lit "0a1b2c3d-4e5f-6789"

found_inner : get_field (lit "config") config ≡ some (obj inner)
unfolding get_field text_eq lit
found_inner = refl

protocol-ne-config : lit "protocol" ≢ lit "config"
unfolding text_eq lit
protocol-ne-config = ne_of_text_eq _ _ refl

url-ne-password : lit "url" ≢ lit "password"
unfolding text_eq lit
url-ne-password = ne_of_text_eq _ _ refl

url-ne-api_key : lit "url" ≢ lit "apiKeyValue"
unfolding text_eq lit
url-ne-api_key = ne_of_text_eq _ _ refl

url-ne-auth : lit "url" ≢ lit "auth"
unfolding text_eq lit
url-ne-auth = ne_of_text_eq _ _ refl

get_share-create_share_example :
    (kept : Fields) × (stored : Fields) × (get_share
        (token_of uuid)
        (create_share 1000 uuid config 50 no_shares).0
      ≡ some kept)
    × (get_field (lit "config") kept ≡ some (obj stored))
    × Lacks (lit "password") stored
    × Lacks (lit "apiKeyValue") stored
    × (get_field (lit "url") stored ≡ get_field (lit "url") inner)
    × (get_field (lit "protocol") kept ≡ get_field (lit "protocol") config)
get_share-create_share_example =
    get_share-create_share 1000 uuid (lit "protocol") (lit "url") config inner 50 no_shares
      found_inner protocol-ne-config url-ne-password url-ne-api_key url-ne-auth

uuid-IsUuid : IsUuid uuid
unfolding lit is_hex
uuid-IsUuid = ground arith

post_config_lifetime_example :
    let r = post_config 1000 uuid config 50 no_shares in
    let later = run 1000 r.0 (passes 700 ∷ []) in
    (r.1.share_url ≡ lit "/share/" ++ token_of uuid)
    × (r.1.shared.expires_at ≡ 1050)
    × IsDelay 1000 (timer_delay 1000)
    × (get_token r.1.shared.token later ≡ found (sanitize config))
    × (get_token r.1.shared.token (run_timers 1100 later) ≡ not_found)
unfolding timer_delay
post_config_lifetime_example =
    post_config_lifetime 1000 uuid config 50 1100 no_shares (passes 700 ∷ []) uuid-IsUuid tt
      (omega arith, tt) (omega arith)
