-- ===== src/Plugin/Secured.antt =====
-- The token plugin in a registry: ferrotunnel-plugin/src/builtin/auth.rs under registry.rs.
use ferrotunnel.Base.{
  ℕ, ◌≡◌, sym, ap, ◌∙◌, arith, List, [], ◌∷◌, ◌++◌, All, Option, some, get_elem?, Result, ok,
}
use ferrotunnel.Frame.{Text}
use ferrotunnel.Plugin.{
  Plugin, PluginAction, proceed, finished, request_hook, RequestContext, plain_plugin, run_hooks,
  execute_request_hooks,
}
use ferrotunnel.Plugin.Registry.{after_hook-proceed, run_hooks-each}
use ferrotunnel.Plugin.TokenAuth.{TokenAuthPlugin, check_token, check_token_iff}

module _ {W Error Req Res : Type 0} (header : Req → Text → Option Text) where
  -- `TokenAuthPlugin` in a registry. `header` is the value of a request's header if it is a string.
  unfoldable pub token_auth_plugin : TokenAuthPlugin → Plugin W Error Req Res
  token_auth_plugin auth =
      record (plain_plugin (116 ∷ 111 ∷ 107 ∷ 101 ∷ 110 ∷ 45 ∷ 97 ∷ 117 ∷ 116 ∷ 104 ∷ [])) {
        on_request =
            λ ctx w req. (finished req (ok (check_token auth (header req auth.header_name))), w);
      }

  -- A plugin leaves a header as it is.
  pub record KeepsHeader (name : Text) (p : Plugin W Error Req Res) : Type 0 where
    pub keeps :
        (ctx : RequestContext) (w after : W) (req left : Req) (answer : Result Error PluginAction)
        → p.on_request ctx w req ≡ (finished left answer, after)
        → header left name ≡ header req name

  run_hooks-KeepsHeader :
      (blank : Req) (name : Text) (ctx : RequestContext) (ps : List (Plugin W Error Req Res))
      (w last : W) (req out : Req)
      → All (KeepsHeader name) ps
      → run_hooks request_hook (λ p. p.on_request ctx) blank ps w req ≡ (ok proceed, out, last)
      → header out name ≡ header req name
  unfolding run_hooks
  run_hooks-KeepsHeader blank name ctx [] w last req out keep h =
      ap (λ r. header r name) (sym (ap (λ r. r.1) h))
  run_hooks-KeepsHeader blank name ctx (p ∷ ps) w last req out (k, keep) h =
      let (left, after, e, more) =
        after_hook-proceed {Res = Res} request_hook (λ q. q.on_request ctx) blank p.name
          (p.on_request ctx w req) (run_hooks request_hook (λ q. q.on_request ctx) blank ps) out
          last h in
      run_hooks-KeepsHeader blank name ctx ps after last left out keep more
      ∙ k.keeps ctx w after req left (ok proceed) e

  -- Wherever it stands in the registry, the token plugin guards it: a request that goes through all
  -- hooks came with one of the plugin's tokens, whatever the other plugins do, as long as those before
  -- it leave the token's header as it is.
  pub execute_request_hooks-guarded :
      (auth : TokenAuthPlugin) (ps qs : List (Plugin W Error Req Res)) (ctx : RequestContext)
      (w last : W) (blank req out : Req)
      → All (KeepsHeader auth.header_name) ps
      → execute_request_hooks blank (ps ++ token_auth_plugin auth ∷ qs) ctx w req
        ≡ (ok proceed, out, last)
      → (t : Text) × (i : ℕ) × (header req auth.header_name ≡ some t)
        × (get_elem? auth.valid_tokens i ≡ some t)
  unfolding execute_request_hooks token_auth_plugin
  execute_request_hooks-guarded auth ps qs ctx w last blank req out keep h =
      let (seen, before, left, after, through, let_through) =
        run_hooks-each request_hook (λ q. q.on_request ctx) blank ps (token_auth_plugin auth) qs w
          req out last h in
      let kept =
        run_hooks-KeepsHeader blank auth.header_name ctx ps w before req seen keep through in
      let passed : check_token auth (header seen auth.header_name) ≡ proceed = ground arith in
      let (t, i, e, known) = (check_token_iff auth (header seen auth.header_name)).0 passed in
      (t, i, sym kept ∙ e, known)
