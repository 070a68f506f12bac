-- ===== src/Manager/Options.antt =====
-- cmd/main.go: the flags and what `main` makes of them. An option of package tls is a function on the
-- part of a `tls.Config` that the program sets.
use entropyk.Base.{
  String, str_eq, not, Bool, true, false, Option, none, some, List, [], ◌∷◌, ◌++◌, ◌≡◌, ◌↔◌,
  if◌then◌else◌, arith, eq_iff,
}

pub record Flags : Type 0 where
  pub metrics_addr : String
  pub probe_addr : String
  pub enable_leader_election : Bool
  pub secure_metrics : Bool
  pub webhook_cert_path : String
  pub webhook_cert_name : String
  pub webhook_cert_key : String
  pub metrics_cert_path : String
  pub metrics_cert_name : String
  pub metrics_cert_key : String
  pub enable_http2 : Bool

-- The values of flags that are not given.
abbrev pub default_flags : Flags
default_flags = record {
  metrics_addr = "0";
  probe_addr = ":8081";
  enable_leader_election = false;
  secure_metrics = true;
  webhook_cert_path = "";
  webhook_cert_name = "tls.crt";
  webhook_cert_key = "tls.key";
  metrics_cert_path = "";
  metrics_cert_name = "tls.crt";
  metrics_cert_key = "tls.key";
  enable_http2 = false;
}

pub record TlsConfig : Type 0 where
  pub next_protos : List String

abbrev pub TlsOption : Type 0
TlsOption = TlsConfig → TlsConfig

-- What a server makes of its options: each is a function that it lets change its configuration, the
-- last of them last.
pub record Listener : Type 0 where
  pub configure : List TlsOption → TlsConfig → TlsConfig
  pub configures_last :
      (opts : List TlsOption) (opt : TlsOption) (config : TlsConfig)
      → configure (opts ++ (opt ∷ [])) config ≡ opt (configure opts config)

-- The certificates of a server, where it is given a path to them.
pub record CertFiles : Type 0 where
  pub cert_dir : String
  pub cert_name : String
  pub key_name : String

pub record WebhookOptions : Type 0 where
  pub tls_opts : List TlsOption
  pub cert_files : Option CertFiles

-- `filters.WithAuthenticationAndAuthorization` is the one filter that is used.
pub data FilterProvider : Type 0 where
  with_authentication_and_authorization : FilterProvider

pub record MetricsOptions : Type 0 where
  pub bind_address : String
  pub secure_serving : Bool
  pub tls_opts : List TlsOption
  pub filter_provider : Option FilterProvider
  pub cert_files : Option CertFiles

pub record ManagerOptions : Type 0 where
  pub metrics : MetricsOptions
  pub webhook_server : WebhookOptions
  pub health_probe_bind_address : String
  pub leader_election : Bool
  pub leader_election_id : String

unfoldable pub disable_http2 : TlsOption
disable_http2 config = record config { next_protos = "http/1.1" ∷ [] }

unfoldable pub tls_opts : Flags → List TlsOption
tls_opts flags = if not flags.enable_http2 then disable_http2 ∷ [] else []

-- `len(path) > 0`
unfoldable pub cert_files : String → String → String → Option CertFiles
cert_files path name key =
    if not (str_eq path "")
    then some (record { cert_dir = path; cert_name = name; key_name = key })
    else none

unfoldable pub webhook_options : Flags → WebhookOptions
webhook_options flags = record {
  tls_opts = tls_opts flags;
  cert_files = cert_files flags.webhook_cert_path flags.webhook_cert_name flags.webhook_cert_key;
}

unfoldable pub metrics_options : Flags → MetricsOptions
metrics_options flags = record {
  bind_address = flags.metrics_addr;
  secure_serving = flags.secure_metrics;
  tls_opts = tls_opts flags;
  filter_provider =
      if flags.secure_metrics then some with_authentication_and_authorization else none;
  cert_files = cert_files flags.metrics_cert_path flags.metrics_cert_name flags.metrics_cert_key;
}

unfoldable pub manager_options : Flags → ManagerOptions
manager_options flags = record {
  metrics = metrics_options flags;
  webhook_server = webhook_options flags;
  health_probe_bind_address = flags.probe_addr;
  leader_election = flags.enable_leader_election;
  leader_election_id = "936627fe.temper.io";
}

-- What the options of the manager guarantee of its two servers.
pub record IsHardened (listener : Listener) (flags : Flags) (opts : ManagerOptions) : Type 0 where
  pub webhook_http1 :
      flags.enable_http2 ≡ false
      → (config : TlsConfig)
      → (listener.configure opts.webhook_server.tls_opts config).next_protos ≡ "http/1.1" ∷ []
  pub metrics_http1 :
      flags.enable_http2 ≡ false
      → (config : TlsConfig)
      → (listener.configure opts.metrics.tls_opts config).next_protos ≡ "http/1.1" ∷ []
  pub metrics_guarded :
      (opts.metrics.secure_serving ≡ true)
      ↔ (opts.metrics.filter_provider ≡ some with_authentication_and_authorization)
  pub webhook_generated : (opts.webhook_server.cert_files ≡ none) ↔ (flags.webhook_cert_path ≡ "")
  pub metrics_generated : (opts.metrics.cert_files ≡ none) ↔ (flags.metrics_cert_path ≡ "")

-- Without the flag for HTTP/2 both servers offer HTTP/1.1 only, whatever they were configured to offer
-- before, if a server applies the last of its options last; the metrics are served with
-- authentication and authorization exactly if they are served securely; and a server has no
-- certificate files exactly if it is given no path to them.
pub manager_options-IsHardened :
    (listener : Listener) (flags : Flags) → IsHardened listener flags (manager_options flags)
unfolding manager_options webhook_options metrics_options tls_opts cert_files disable_http2
manager_options-IsHardened listener flags = record {
  webhook_http1 = λ off config. ground (arith, listener.configures_last [] disable_http2 config);
  metrics_http1 = λ off config. ground (arith, listener.configures_last [] disable_http2 config);
  metrics_guarded = ground arith;
  webhook_generated = ground (arith, eq_iff flags.webhook_cert_path "");
  metrics_generated = ground (arith, eq_iff flags.metrics_cert_path "");
}
