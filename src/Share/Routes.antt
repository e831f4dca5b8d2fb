-- ===== src/Share/Routes.antt =====
-- src/share/share.controller.ts: the routes of shared configurations.
use socket_tester.Base.{ℕ, Bool, ◌&&◌, ◌||◌, none, some, ◌++◌, filter, take, Text, lit, leb}
use socket_tester.Json.{Fields}
use socket_tester.Share.{ShareState, Shared, create_share, get_share}

-- The answer of `createShare`: the share and the path of its page.
pub record Link : Type 0 where
  pub shared : Shared
  pub share_url : Text

unfoldable pub post_config : ℕ → Text → Fields → ℕ → ShareState → ShareState × Link
post_config ttl uuid config now st =
    let r = create_share ttl uuid config now st in
    (r.0, record { shared = r.1; share_url = lit "/share/" ++ r.1.token })

-- What `/[^a-f0-9]/gi` keeps: 0-9, A-F and a-f.
unfoldable pub is_hex : ℕ → Bool
is_hex c = leb 48 c && leb c 57 || (leb 65 c && leb c 70 || leb 97 c && leb c 102)

unfoldable pub sanitize_token : Text → Text
sanitize_token token = take 32 (filter is_hex token)

pub data ShareAnswer : Type 0 where
  not_found : ShareAnswer
  found : Fields → ShareAnswer

unfoldable pub get_token : Text → ShareState → ShareAnswer
get_token token st = elim (get_share (sanitize_token token) st) [
  | none ↦ not_found
  | some config ↦ found config
]
