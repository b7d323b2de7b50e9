-- ===== src/Tasks/Heartbeat.antt =====
-- The heartbeat of the agent: tasks/registry. The JSON package and the HTTP client are given; errors
-- are only logged.
use monitorbeat.Base.{ℕ, Bool, Option, none, some, List, [], ◌∷◌, ◌++◌, if◌then◌else◌}
use monitorbeat.Base.Text.{Text}
use monitorbeat.Alerts.Api.{is_empty}
use monitorbeat.Configs.Root.{RegistryConfig}

pub record AgentInfo : Type 0 where
  pub hostname : Text
  pub version : Text
  pub tasks : List Text
  pub ip : Text
  pub k8s_node : Text
  pub start_time : ℕ

pub record Sender : Type 0 where
  pub cfg : RegistryConfig
  pub info : AgentInfo

-- `resolveOutboundIP`: none is an error, or an address that is not of UDP.
unfoldable pub resolve_outbound_ip : Option Text → Text
resolve_outbound_ip none = []
resolve_outbound_ip (some ip) = ip

-- `New`, of what the host gives.
unfoldable pub new_sender :
    RegistryConfig → Text → List Text → Text → Option Text → Text → ℕ → Sender
unfolding resolve_outbound_ip
new_sender cfg version types host ip node now = record {
  cfg = cfg;
  info = record {
    hostname = host;
    version = version;
    tasks = types;
    ip = resolve_outbound_ip ip;
    k8s_node = node;
    start_time = now;
  };
}

-- What the loop of `Run` waits for.
pub data Turn : Type 0 where
  done stopped tick : Turn

module _ (marshal : AgentInfo → Option Text) (can_request : Text → Bool) where
  -- `send`, behind some requests: each is its URL and body.
  unfoldable pub send_heartbeat : Sender → List (Text × Text) → List (Text × Text)
  send_heartbeat s sent = elim (marshal s.info) [
    | none ↦ sent
    | some body ↦ if can_request s.cfg.url then sent ++ (s.cfg.url, body) ∷ [] else sent
  ]

  unfoldable pub wait_turns : Sender → List Turn → List (Text × Text) → List (Text × Text)
  unfolding send_heartbeat
  wait_turns s [] sent = sent
  wait_turns s (done ∷ l) sent = sent
  wait_turns s (stopped ∷ l) sent = sent
  wait_turns s (tick ∷ l) sent = wait_turns s l (send_heartbeat s sent)

  -- `Run`: nothing without a URL, else one heartbeat at once and one at each tick.
  unfoldable pub run_sender : Sender → List Turn → List (Text × Text)
  unfolding wait_turns
  run_sender s l = if is_empty s.cfg.url then [] else wait_turns s l (send_heartbeat s [])
