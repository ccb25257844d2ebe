-- ===== src/Plugin/Registry.antt =====
-- How the hooks of ferrotunnel-plugin/src/registry.rs combine.
use ferrotunnel.Base.{◌≡◌, refl, sym, ap, subst, ◌∙◌, arith, List, [], ◌∷◌, ◌++◌, Result, ok, err}
use mathlib.Core.Path.{fun_ext}
use ferrotunnel.Frame.{Text}
use ferrotunnel.Plugin.{
  Plugin, PluginAction, proceed, modify, reject, respond, PluginError, HookName, Joined, finished,
  panicked, cancelled, RequestContext, ResponseContext, register, after_hook, run_hooks,
  execute_request_hooks, execute_response_hooks,
}

-- Another run after a run of hooks: its hooks see what the first left, unless that was decided.
abbrev pub and_then :
    {W Error Message : Type 0}
    → Result (PluginError Error) PluginAction × Message × W
    → (W → Message → Result (PluginError Error) PluginAction × Message × W)
    → Result (PluginError Error) PluginAction × Message × W
and_then (ok proceed, m, w) next = next w m
and_then (ok action, m, w) next = (ok action, m, w)
and_then (err e, m, w) next = (err e, m, w)

module _ {W Error Req Res : Type 0} where
  module _ {Message : Type 0} (which : HookName)
      (hook : Plugin W Error Req Res → W → Message → Joined Error Message × W)
      (blank : Message) where
    after_hook-and_then :
        (name : Text) (r : Joined Error Message × W)
        (rest next : W → Message → Result (PluginError Error) PluginAction × Message × W)
        → and_then (after_hook which name blank r rest) next
          ≡ after_hook which name blank r (λ w m. and_then (rest w m) next)
    unfolding after_hook
    after_hook-and_then name (panicked, w) rest next = refl
    after_hook-and_then name (cancelled, w) rest next = refl
    after_hook-and_then name (finished m (err e), w) rest next = refl
    after_hook-and_then name (finished m (ok proceed), w) rest next = refl
    after_hook-and_then name (finished m (ok modify), w) rest next = refl
    after_hook-and_then name (finished m (ok (reject s t)), w) rest next = refl
    after_hook-and_then name (finished m (ok (respond s h b)), w) rest next = refl

    pub run_hooks-append :
        (ps qs : List (Plugin W Error Req Res)) (w : W) (m : Message)
        → run_hooks which hook blank (ps ++ qs) w m
          ≡ and_then (run_hooks which hook blank ps w m) (run_hooks which hook blank qs)
    unfolding run_hooks
    run_hooks-append [] qs w m = refl
    run_hooks-append (p ∷ ps) qs w m =
        ap (after_hook which p.name blank (hook p w m))
          (fun_ext (λ w'. fun_ext (λ m'. run_hooks-append ps qs w' m')))
        ∙ sym (
            after_hook-and_then p.name (hook p w m) (run_hooks which hook blank ps)
              (run_hooks which hook blank qs))

    pub after_hook-proceed :
        (name : Text) (r : Joined Error Message × W)
        (rest : W → Message → Result (PluginError Error) PluginAction × Message × W) (out : Message)
        (last : W)
        → after_hook which name blank r rest ≡ (ok proceed, out, last)
        → (m : Message) × (w : W) × (r ≡ (finished m (ok proceed), w))
          × (rest w m ≡ (ok proceed, out, last))
    unfolding after_hook
    after_hook-proceed name (panicked, w) rest out last h = absurd (ground arith)
    after_hook-proceed name (cancelled, w) rest out last h = absurd (ground arith)
    after_hook-proceed name (finished m (err e), w) rest out last h = absurd (ground arith)
    after_hook-proceed name (finished m (ok proceed), w) rest out last h = (m, w, refl, h)
    after_hook-proceed name (finished m (ok modify), w) rest out last h = absurd (ground arith)
    after_hook-proceed name (finished m (ok (reject s t)), w) rest out last h =
        absurd (ground arith)
    after_hook-proceed name (finished m (ok (respond s hs b)), w) rest out last h =
        absurd (ground arith)

    -- A message that goes through all hooks went through each: a plugin saw what those before it left,
    -- and let it through.
    pub run_hooks-each :
        (ps : List (Plugin W Error Req Res)) (p : Plugin W Error Req Res)
        (qs : List (Plugin W Error Req Res)) (w : W) (m out : Message) (last : W)
        → run_hooks which hook blank (ps ++ p ∷ qs) w m ≡ (ok proceed, out, last)
        → (seen : Message) × (before : W) × (left : Message) × (after : W) × (run_hooks which hook
              blank ps w m
            ≡ (ok proceed, seen, before))
          × (hook p before seen ≡ (finished left (ok proceed), after))
    unfolding run_hooks after_hook
    run_hooks-each [] p qs w m out last h =
        let (left, after, e, more) =
          after_hook-proceed p.name (hook p w m) (run_hooks which hook blank qs) out last h in
        (m, w, left, after, refl, e)
    run_hooks-each (q ∷ ps) p qs w m out last h =
        let (m', w', e, more) =
          after_hook-proceed q.name (hook q w m) (run_hooks which hook blank (ps ++ p ∷ qs)) out
            last h in
        let (seen, before, left, after, through, let_through) =
          run_hooks-each ps p qs w' m' out last more in
        (
          seen,
          before,
          left,
          after,
          subst
              (λ r.
                after_hook which q.name blank r (run_hooks which hook blank ps)
                ≡ (ok proceed, seen, before))
              (sym e) through,
          let_through,
        )

  -- A plugin that is registered runs after the others, on what they leave, and only when all of them
  -- let the request or response through; otherwise what the others answered stands.
  register-and_then :
      (plugins : List (Plugin W Error Req Res)) (plugin : Plugin W Error Req Res)
      (req_ctx : RequestContext) (res_ctx : ResponseContext) (w : W) (blank req : Req)
      (blank_res res : Res)
      → (execute_request_hooks blank (register plugins plugin) req_ctx w req
          ≡ and_then
              (execute_request_hooks blank plugins req_ctx w req)
              (execute_request_hooks blank (plugin ∷ []) req_ctx))
        × (execute_response_hooks blank_res (register plugins plugin) res_ctx w res
            ≡ and_then
                (execute_response_hooks blank_res plugins res_ctx w res)
                (execute_response_hooks blank_res (plugin ∷ []) res_ctx))
  unfolding execute_request_hooks execute_response_hooks register
  register-and_then plugins plugin req_ctx res_ctx w blank req blank_res res = (
    run_hooks-append _ _ blank plugins (plugin ∷ []) w req,
    run_hooks-append _ _ blank_res plugins (plugin ∷ []) w res,
  )
