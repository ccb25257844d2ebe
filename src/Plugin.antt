-- ===== src/Plugin.antt =====
-- ferrotunnel-plugin/src/traits.rs and registry.rs: plugins and the registry that runs their hooks. `W`
-- is the state that the plugins keep behind their locks, `Error` what their hooks raise, and `Req` and
-- `Res` are the requests and responses of the `http` package. A hook runs in a task of its own, so that
-- it can also panic or be cancelled.
pub mod Registry
pub mod TokenAuth
pub mod RateLimit
pub mod Secured
mod Checks
use ferrotunnel.Base.{ℕ, List, [], ◌∷◌, ◌++◌, Bool, true, false, if◌then◌else◌, Result, ok, err}
use ferrotunnel.Frame.{Bytes, Text}

-- `Continue` is spelled `proceed`.
pub data PluginAction : Type 0 where
  proceed modify : PluginAction
  reject : (status : ℕ) (reason : Text) → PluginAction
  respond : (status : ℕ) (headers : List (Text × Text)) (body : Bytes) → PluginAction

pub record RequestContext : Type 0 where
  pub tunnel_id : Text
  pub session_id : Text
  pub remote_ip : Text
  pub remote_port : ℕ
  pub timestamp : ℕ

pub record ResponseContext : Type 0 where
  pub tunnel_id : Text
  pub session_id : Text
  pub status_code : ℕ
  pub duration_ms : ℕ

-- What awaiting a hook's task gives: the message, as the hook left it, and its answer; or the task's
-- failure, with which the message is lost.
pub data Joined (Error Message : Type 0) : Type 0 where
  finished : Message → Result Error PluginAction → Joined Error Message
  panicked cancelled : Joined Error Message

pub record Plugin (W Error Req Res : Type 0) : Type 0 where
  pub name : Text
  pub version : Text
  pub init : W → Result Error (Unit {0}) × W
  pub shutdown : W → Result Error (Unit {0}) × W
  pub on_request : RequestContext → W → Req → Joined Error Req × W
  pub on_response : ResponseContext → W → Res → Joined Error Res × W
  pub needs_response_body : W → Bool

pub data HookName : Type 0 where
  request_hook response_hook : HookName

-- An error of a hook, or what `join_error` makes of a failed task.
pub data PluginError (Error : Type 0) : Type 0 where
  raised : Error → PluginError Error
  hook_panicked hook_failed : (plugin : Text) (hook : HookName) → PluginError Error

-- A turn of the loop: what a hook's task gave, and the rest of the plugins.
unfoldable pub after_hook :
    {W Error Message : Type 0}
    → HookName
    → Text
    → Message
    → Joined Error Message × W
    → (W → Message → Result (PluginError Error) PluginAction × Message × W)
    → Result (PluginError Error) PluginAction × Message × W
after_hook which name blank (panicked, w) rest = (err (hook_panicked name which), blank, w)
after_hook which name blank (cancelled, w) rest = (err (hook_failed name which), blank, w)
after_hook which name blank (finished next (err e), w) rest = (err (raised e), blank, w)
after_hook which name blank (finished next (ok proceed), w) rest = rest w next
after_hook which name blank (finished next (ok action), w) rest = (ok action, next, w)

abbrev pub PluginRegistry : (W Error Req Res : Type 0) → Type 0
PluginRegistry W Error Req Res = List (Plugin W Error Req Res)

module _ {W Error Req Res : Type 0} where
  -- A plugin with the trait's default hooks.
  abbrev pub plain_plugin : Text → Plugin W Error Req Res
  plain_plugin name = record {
    name = name;
    version = 49 ∷ 46 ∷ 48 ∷ 46 ∷ 48 ∷ [];
    init = λ w. (ok tt, w);
    shutdown = λ w. (ok tt, w);
    on_request = λ ctx w req. (finished req (ok proceed), w);
    on_response = λ ctx w res. (finished res (ok proceed), w);
    needs_response_body = λ w. false;
  }

  unfoldable pub register :
      PluginRegistry W Error Req Res → Plugin W Error Req Res → PluginRegistry W Error Req Res
  register plugins plugin = plugins ++ plugin ∷ []

  -- The loop over the plugins, for either hook. `blank` is what the caller is left with when a hook fails.
  unfoldable pub run_hooks :
      {Message : Type 0}
      → HookName
      → (Plugin W Error Req Res → W → Message → Joined Error Message × W)
      → Message
      → PluginRegistry W Error Req Res
      → W
      → Message
      → Result (PluginError Error) PluginAction × Message × W
  run_hooks which hook blank [] w current = (ok proceed, current, w)
  run_hooks which hook blank (plugin ∷ plugins) w current =
      after_hook which plugin.name blank (hook plugin w current)
        (run_hooks which hook blank plugins)

  unfoldable pub execute_request_hooks :
      Req
      → PluginRegistry W Error Req Res
      → RequestContext
      → W
      → Req
      → Result (PluginError Error) PluginAction × Req × W
  execute_request_hooks blank plugins ctx =
      run_hooks request_hook (λ plugin. plugin.on_request ctx) blank plugins

  unfoldable pub execute_response_hooks :
      Res
      → PluginRegistry W Error Req Res
      → ResponseContext
      → W
      → Res
      → Result (PluginError Error) PluginAction × Res × W
  execute_response_hooks blank plugins ctx =
      run_hooks response_hook (λ plugin. plugin.on_response ctx) blank plugins

  -- The first plugin that fails to start ends it.
  unfoldable pub init_all : PluginRegistry W Error Req Res → W → Result Error (Unit {0}) × W
  init_all [] w = (ok tt, w)
  init_all (plugin ∷ plugins) w =
      let (result, w') = plugin.init w in
      elim result [ err e ↦ (err e, w') | ok started ↦ init_all plugins w' ]

  unfoldable pub shutdown_all : PluginRegistry W Error Req Res → W → Result Error (Unit {0}) × W
  shutdown_all [] w = (ok tt, w)
  shutdown_all (plugin ∷ plugins) w =
      let (result, w') = plugin.shutdown w in
      elim result [ err e ↦ (err e, w') | ok stopped ↦ shutdown_all plugins w' ]

  unfoldable pub needs_response_buffering : PluginRegistry W Error Req Res → W → Bool
  needs_response_buffering [] w = false
  needs_response_buffering (plugin ∷ plugins) w =
      if plugin.needs_response_body w then true else needs_response_buffering plugins w

  abbrev pub is_empty : PluginRegistry W Error Req Res → Bool
  is_empty [] = true
  is_empty (plugin ∷ plugins) = false
