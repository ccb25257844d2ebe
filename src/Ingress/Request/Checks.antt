-- ===== src/Ingress/Request/Checks.antt =====
-- `handle_request` over a store with one tunnel, `h`, and a registry with the token plugin.
use ferrotunnel.Base.{
  ℕ, ◌+◌, List, [], ◌∷◌, ◌++◌, Option, none, some, Bool, true, nat_key, bytes_key, Result, ok,
}
use ferrotunnel.Base.Maps.{DashMap, assoc_map}
use ferrotunnel.Frame.{Bytes, Text, Uuid}
use ferrotunnel.Session.{Session}
use ferrotunnel.Session.Backend as Backend
use ferrotunnel.Session.Backend.{SessionStoreBackend, plain}
use ferrotunnel.Plugin.{Plugin, PluginAction, proceed, finished, plain_plugin, RequestContext}
use ferrotunnel.Plugin.TokenAuth.{TokenAuthPlugin}
use ferrotunnel.Plugin.Secured.{token_auth_plugin}
use ferrotunnel.Ingress.{host}
use ferrotunnel.Ingress.Sample.{Fields, fields_map}
use ferrotunnel.Ingress.Request.{Parts}
use ferrotunnel.Ingress.Request.Guarded.{header_of_request}

abbrev Client : Type 0
Client = Session ℕ ℕ

abbrev by_id : DashMap Uuid Client (List (Uuid × Client))
by_id = assoc_map

abbrev by_tunnel : DashMap Text Uuid (List (Text × Uuid))
by_tunnel = assoc_map

abbrev client : Client
client = record {
  id = 1;
  tunnel_id = 104 ∷ [];
  client_addr = 0;
  token = [];
  connected_at = 0;
  last_heartbeat = 0;
  capabilities = [];
  multiplexer = some 7;
  rate_limiter = none;
}

abbrev store : SessionStoreBackend (List (Uuid × Client)) (List (Text × Uuid))
store = plain (record { sessions = (1, client) ∷ []; tunnel_index = (104 ∷ [], 1) ∷ [] })

abbrev append_field : Fields → Text → Bytes → Fields
append_field fields name value = fields ++ (name, value) ∷ []

abbrev digit : Text → Option ℕ
digit [] = none
digit (c ∷ t) = some c

abbrev path : Text → Text
path line = line

abbrev buildable : ℕ → List (Text × Text) → Bool
buildable status fields = true

abbrev context : Text → RequestContext
context tunnel_id = record {
  tunnel_id = tunnel_id;
  session_id = [];
  remote_ip = [];
  remote_port = 80;
  timestamp = 0;
}

abbrev auth : TokenAuthPlugin
auth = record { valid_tokens = (115 ∷ []) ∷ []; header_name = 116 ∷ [] }

-- `GET /` with `Host: H` and `t: s`.
abbrev request : Parts Fields Text
request = record { headers = (host, 72 ∷ []) ∷ (116 ∷ [], 115 ∷ []) ∷ []; rest = 47 ∷ [] }

abbrev header : Parts Fields Text → Text → Option Text
header = header_of_request fields_map append_field digit

abbrev logger : Plugin ℕ ℕ (Parts Fields Text) ℕ
logger = record (plain_plugin (108 ∷ [])) {
  on_request = λ c w req. (finished req (Result.ok PluginAction.proceed), w + 1);
}

abbrev plugins : List (Plugin ℕ ℕ (Parts Fields Text) ℕ)
plugins = logger ∷ token_auth_plugin header auth ∷ []
