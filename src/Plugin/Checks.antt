-- ===== src/Plugin/Checks.antt =====
-- A registry with the token plugin, and the plugins' theorems at concrete requests: a request is its
-- token, and the plugins' state is a count of the requests that the logger saw.
use ferrotunnel.Base.{ℕ, ◌+◌, ◌≡◌, refl, List, [], ◌∷◌, Option, none, some, ok, err, arith}
use ferrotunnel.Frame.{Text}
use ferrotunnel.Auth.{compare_from}
use ferrotunnel.Plugin.{
  Plugin, proceed, finished, panicked, hook_panicked, request_hook, RequestContext, plain_plugin,
  after_hook, run_hooks, execute_request_hooks,
}
use ferrotunnel.Plugin.Secured.{token_auth_plugin, KeepsHeader}
use ferrotunnel.Plugin.TokenAuth.{
  TokenAuthPlugin, new_token_auth, check_token, token_matches, match_tokens, constant_time_token_eq,
}

abbrev Request : Type 0
Request = Option Text

abbrev header : Request → Text → Option Text
header req name = req

abbrev ctx : RequestContext
ctx = record { tunnel_id = []; session_id = []; remote_ip = []; remote_port = 80; timestamp = 0 }

abbrev logger : Plugin ℕ ℕ Request ℕ
logger = record (plain_plugin (108 ∷ [])) {
  on_request = λ c w req. (finished req (ok proceed), w + 1);
}

abbrev faulty : Plugin ℕ ℕ Request ℕ
faulty = record (plain_plugin (102 ∷ [])) { on_request = λ c w req. (panicked, w) }

abbrev auth : TokenAuthPlugin
auth = new_token_auth ((115 ∷ 49 ∷ []) ∷ (115 ∷ 50 ∷ []) ∷ [])

abbrev guarded : List (Plugin ℕ ℕ Request ℕ)
guarded = logger ∷ token_auth_plugin header auth ∷ []

let_through :
    execute_request_hooks none guarded ctx 7 (some (115 ∷ 50 ∷ []))
    ≡ (ok proceed, some (115 ∷ 50 ∷ []), 8)
unfolding execute_request_hooks run_hooks after_hook token_auth_plugin check_token token_matches
    match_tokens constant_time_token_eq compare_from
let_through = refl

panic_refused :
    execute_request_hooks none (logger ∷ faulty ∷ guarded) ctx 7 (some (115 ∷ 50 ∷ []))
    ≡ (err (hook_panicked (102 ∷ []) request_hook), none, 8)
unfolding execute_request_hooks run_hooks after_hook
panic_refused = refl

logger-KeepsHeader : KeepsHeader header auth.header_name logger
logger-KeepsHeader = record { keeps = λ c w after req left answer e. ground arith }
