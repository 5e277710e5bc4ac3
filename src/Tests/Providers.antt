-- ===== src/Tests/Providers.antt =====
-- The theorems on the provider chains, the resolvers and the endpoints, applied to concrete inputs.
use smolit_assistant.Base.{
  ◌*◌, ◌≡◌, ◌≢◌, ◌↔◌, refl, String, true, false, none, some, List, [], ◌∷◌, In, All, map, arith,
}
use smolit_assistant.Base.Decimal.{decimal}
use smolit_assistant.Base.Failures.{ok}
use smolit_assistant.Base.Text.Search.{has_char}
use smolit_assistant.Config.Values.{normalized}
use smolit_assistant.Providers.{known_text_kinds, provider_name_cloud_http}
use smolit_assistant.Providers.Chain.{validate_chain, validate_text_chain, valid}
use smolit_assistant.Providers.Chain.Valid.{Distinct, validate_chain_iff}
use smolit_assistant.Config.Values.{non_empty}
use smolit_assistant.Providers.Endpoint.{https, parse_local_endpoint, parse_cloud_endpoint}
use smolit_assistant.Providers.Http.{parse_response}
use smolit_assistant.Providers.Outside.{read_as_text}
use smolit_assistant.Providers.Text.{
  LocalHttpConfigView, CloudHttpConfigView, validate_auth_header_name, run_local_http,
  run_cloud_http,
}
use smolit_assistant.Providers.Classes.Faults.{failed_class, answers}
use smolit_assistant.Providers.Classes.Faults.Cloud.{
  CloudFault, IsUsable, CloudMeets, run_cloud_http-class,
}
use smolit_assistant.Providers.Classes.Faults.Local.{
  LocalFault, IsReachable, LocalMeets, run_local_http-class,
}
use smolit_assistant.Providers.Outside.{Outside, connect, fails, exited, no_text}
use smolit_assistant.Providers.Endpoint.{parse_rest}
use smolit_assistant.Providers.Endpoint.Parts.{parse_rest-render}
use smolit_assistant.Providers.Endpoint.Sound.{IsEndpoint, parse_rest-IsEndpoint}
use smolit_assistant.Providers.Resolver.{resolve}
use smolit_assistant.Providers.Resolver.First.{Explained, resolve-Explained}
use smolit_assistant.Providers.Llamafile.{
  LlamafileConfigView, LlamafileLocalProvider, new_llamafile, ready_loop, enough_rounds,
  run_llamafile,
}
use smolit_assistant.Providers.Llamafile.Ready.{Ends, ready_loop-Ends}
use smolit_assistant.Providers.Llamafile.Settled.{
  IsSettled, new_llamafile-IsSettled, run_llamafile-IsSettled,
}
use smolit_assistant.Providers.Axes.{text_kinds, TextParts, text_axis, text_from_chain}
use smolit_assistant.Providers.Axes.Built.{text_from_chain-valid, text_from_chain-cloud}

-- No connection comes about, every program answers, and the clock ticks once a second.
abbrev pub world : Outside
world = record {
  exchange = λ n c. fails connect "connection refused";
  process = λ n command args input timeout. exited (record {
    success = true;
    status = "0";
    stdout = ok "hello\n";
    stderr = ok "";
    stderr_lossy = "";
  });
  start = λ n path port. none;
  try_wait = λ n. none;
  instant = λ n. 1000 * n;
  encode_json = λ fields. "{}";
  read_json = λ body field. no_text;
}

abbrev view : LlamafileConfigView
view = record {
  enabled = true;
  path = some "/opt/llamafile";
  mode = "on_demand";
  idle_timeout_seconds = 300;
  port = 8788;
  startup_timeout_seconds = 2;
  request_timeout_seconds = 60;
}

abbrev parts : TextParts
parts = record {
  abrain_cmd = "abrain";
  llamafile = view;
  local = record {
    enabled = false;
    endpoint = none;
    request_timeout_seconds = 60;
    prompt_field = "prompt";
    response_field = "content";
  };
  cloud = record {
    enabled = false;
    endpoint = none;
    model = none;
    request_timeout_seconds = 90;
    prompt_field = "prompt";
    response_field = "content";
    auth_header = "Authorization";
    api_key = none;
  };
  now = 0;
}

abbrev raw : List String
raw = " LLAMAFILE_local" ∷ "abrain" ∷ []

abbrev kinds : List String
kinds = "llamafile_local" ∷ "abrain" ∷ []

validate_chain_iff_example : (validate_chain known_text_kinds raw ≡ valid kinds) ↔ (
    (raw ≢ [])
    × (kinds ≡ map normalized raw)
    × All (λ k. In k known_text_kinds) kinds
    × Distinct kinds)
validate_chain_iff_example = validate_chain_iff known_text_kinds raw kinds refl

abbrev rejection : String
rejection = "HTTP/1.1 401 Unauthorized\r\nA: b\r\n\r\n{}"

-- The server does not know the key.
abbrev rejecting : Outside
rejecting = record world { exchange = λ n call. read_as_text (ok rejection) }

abbrev cloud : CloudHttpConfigView
cloud = record {
  enabled = true;
  endpoint = some "https://api.example/v1";
  model = none;
  request_timeout_seconds = 60;
  prompt_field = "prompt";
  response_field = "content";
  auth_header = "Authorization";
  api_key = some "old key";
}

cloud-IsUsable : IsUsable rejecting 0 "hello" cloud
unfolding non_empty validate_auth_header_name parse_cloud_endpoint
cloud-IsUsable = record {
  endpoint = "https://api.example/v1";
  key = "old key";
  header = "Authorization";
  parts = (https, "api.example", 443, "/v1");
  enabled = refl;
  has_endpoint = refl;
  has_key = refl;
  has_header = refl;
  parses = refl;
}

run_cloud_http-class_example :
    failed_class (run_cloud_http rejecting 0 cloud "hello") ≡ some "unauthorized"
unfolding CloudMeets parse_response
run_cloud_http-class_example =
    run_cloud_http-class rejecting 0 "hello" cloud (CloudFault.meets (answers 401)) (
      cloud-IsUsable,
      (
        read_as_text (ok rejection),
        (λ call. refl),
        (rejection, "{}", refl, refl, omega arith, omega arith, omega arith),
      ),
    )

abbrev near : LocalHttpConfigView
near = record {
  enabled = true;
  endpoint = some "http://localhost:11434/api";
  request_timeout_seconds = 60;
  prompt_field = "prompt";
  response_field = "content";
}

near-IsReachable : IsReachable rejecting 0 "hello" near
unfolding non_empty parse_local_endpoint
near-IsReachable = record {
  endpoint = "http://localhost:11434/api";
  parts = ("localhost", 11434, "/api");
  enabled = refl;
  has_endpoint = refl;
  parses = refl;
}

run_local_http-class_example :
    failed_class (run_local_http rejecting 0 near "hello") ≡ some "http_error"
unfolding LocalMeets parse_response
run_local_http-class_example =
    run_local_http-class rejecting 0 "hello" near (LocalFault.meets (answers 401)) (
      near-IsReachable,
      (
        read_as_text (ok rejection),
        (λ call. refl),
        (rejection, "{}", refl, refl, omega arith, omega arith, omega arith),
      ),
    )

parse_rest-render_example :
    parse_rest "cloud_http" 443 "api.example:8443/v1?key=1" ≡ ok ("api.example", 8443, "/v1?key=1")
unfolding decimal has_char
parse_rest-render_example =
    parse_rest-render "cloud_http" 443 "api.example" 8443 "v1?key=1" refl refl refl (omega arith)
      refl

parse_rest-IsEndpoint_example : IsEndpoint ("localhost", 11434, "/api")
unfolding parse_rest
parse_rest-IsEndpoint_example =
    parse_rest-IsEndpoint "local_http" 80 "localhost:11434/api" ("localhost", 11434, "/api")
      (omega arith) refl

resolve-Explained_example :
    let r = text_from_chain kinds parts in
    Explained (text_axis world "hello") 0 r.providers (resolve (text_axis world "hello") 0 r)
resolve-Explained_example =
    resolve-Explained (text_axis world "hello") 0 (text_from_chain kinds parts)

abbrev spawned : LlamafileLocalProvider
spawned = record (new_llamafile 0 view) { child = true }

ready_loop-Ends_example : Ends (ready_loop world (enough_rounds spawned) 2000 3 spawned)
unfolding new_llamafile
ready_loop-Ends_example = ready_loop-Ends world 2000 3 spawned (λ k i e. omega (arith, e)) refl

run_llamafile-IsSettled_example :
    ((run_llamafile world 0 (new_llamafile 0 view) "hello").1.config
      ≡ (new_llamafile 0 view).config)
    × IsSettled (run_llamafile world 0 (new_llamafile 0 view) "hello").1
run_llamafile-IsSettled_example =
    run_llamafile-IsSettled world 0 (new_llamafile 0 view) "hello" (new_llamafile-IsSettled 0 view)

text_from_chain-valid_example : text_kinds (text_from_chain kinds parts) ≡ kinds
unfolding validate_text_chain
text_from_chain-valid_example = text_from_chain-valid raw kinds parts refl

text_from_chain-cloud_example :
    ((text_from_chain ("cloud" ∷ []) parts).providers ≢ [])
    × (In provider_name_cloud_http (text_kinds (text_from_chain ("cloud" ∷ []) parts))
        → In provider_name_cloud_http (map normalized ("cloud" ∷ [])))
text_from_chain-cloud_example = text_from_chain-cloud ("cloud" ∷ []) parts
