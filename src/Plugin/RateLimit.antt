-- ===== src/Plugin/RateLimit.antt =====
-- ferrotunnel-plugin/src/builtin/rate_limit.rs: the plugin that limits requests by client address. The
-- keyed limiter of the `governor` package is an argument: `L` is its state, and `check_key` its verdict
-- on a key with the state after it.
use ferrotunnel.Base.{ℕ, [], ◌∷◌, Bool, eqb, if◌then◌else◌, Result, ok, err}
use ferrotunnel.Frame.{Text}
use ferrotunnel.Plugin.{
  Plugin, PluginAction, proceed, reject, RequestContext, finished, plain_plugin,
}

pub data InvalidRateLimit : Type 0 where
  invalid_rate_limit : InvalidRateLimit

-- `try_new`, with the limiter that `per_second` makes of a quota that is not 0.
unfoldable pub try_new : {L : Type 0} → (ℕ → L) → ℕ → Result InvalidRateLimit L
try_new per_second requests_per_second =
    if eqb requests_per_second 0
    then err invalid_rate_limit
    else ok (per_second requests_per_second)

abbrev rate_limit_exceeded : Text
rate_limit_exceeded =
    82 ∷ 97 ∷ 116 ∷ 101 ∷ 32 ∷ 108 ∷ 105 ∷ 109 ∷ 105 ∷ 116 ∷ 32 ∷ 101 ∷ 120 ∷ 99 ∷ 101 ∷ 101 ∷ 100
    ∷ 101 ∷ 100 ∷ []

-- `on_request`: the key is the client's address without its port.
unfoldable pub check_request :
    {L : Type 0} → (L → Text → Bool × L) → L → RequestContext → PluginAction × L
check_request check_key limiter ctx =
    let (allowed, after) = check_key limiter ctx.remote_ip in
    (if allowed then proceed else reject 429 rate_limit_exceeded, after)

-- The plugin in a registry whose plugins' state is the limiter.
unfoldable pub rate_limit_plugin :
    {L Error Req Res : Type 0} → (L → Text → Bool × L) → Plugin L Error Req Res
unfolding check_request
rate_limit_plugin check_key =
    record (plain_plugin (114 ∷ 97 ∷ 116 ∷ 101 ∷ 45 ∷ 108 ∷ 105 ∷ 109 ∷ 105 ∷ 116 ∷ [])) {
      on_request = λ ctx limiter req.
          let (action, after) = check_request check_key limiter ctx in
          (finished req (ok action), after);
    }
