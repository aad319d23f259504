-- ===== src/DevEnvironments/Tests.antt =====
-- Requests for development environments, and the theorems at them.
use cubestack.Prelude.{
  All, ap, ◌≡◌, refl, Text, codes, text_eq, trim, trim_start, trim_end, is_space, decimal, map,
  join, true, false, [], ◌∷◌, none, some, includes,
}
use cubestack.DevEnvironments.{whole, Body, accepted}
use cubestack.DevEnvironments.Words.{
  is_dns_label, is_runtime_user, is_gpu_model, is_node_name, is_env_name, is_public_key, is_key_of,
  is_key_end, is_comment,
}
use cubestack.DevEnvironments.Names.{unique_name, unique_name-fresh, next_free, volume_name_base}
use cubestack.DevEnvironments.Arguments.{
  split_args, split_loop, split_step, quoted, split_args-quoted,
}
use cubestack.DevEnvironments.Rows.{
  volumes_of, volume_of, env_of, env_var_of, ports_of, port_of, is_no_mount_path,
}
use cubestack.DevEnvironments.Request.{
  Plan, plan_of, check_head, check_accelerator, check_sizes, check_identity, check_workspace,
  check_network, ssh_keys_of, key_lines, check_keys, split_newlines, arguments_of,
}
use cubestack.DevEnvironments.Post.{
  Api, Response, post, with_plan, with_namespaces, with_existing, write_environment, write_secret,
}
use cubestack.DevEnvironments.Sound.{IsMade, IsWritten, post-created}
use cubestack.DevEnvironments.Unwind.{left_by, announced, post-left}
use cubestack.DevEnvironments.View.{DevEnv}
use cubestack.DevEnvironments.Project.{with_values, project, project-hides}

abbrev same : Text → Text
same t = t

-- One volume twice, a variable, a port, and a key of the user.
abbrev request : Body
request = record {
  namespace = some (codes "lab");
  name = some (codes "box");
  type = some (codes "ssh");
  image = some (codes " h/suanova/cpu-pytorch:latest ");
  accelerator = some (codes "nvidia");
  gpu_count = some (whole 2);
  gpu_model = none;
  cpu = some (codes "4");
  memory = none;
  storage_gi = some (whole 50);
  pvc_retention = none;
  idle_timeout = none;
  runtime_user = none;
  run_as_user = none;
  run_as_group = none;
  sudo = true;
  mount_path = some (codes "/work");
  volumes =
      record { pvc_name = some (codes "d"); mount_path = some (codes "/a") }
      ∷ record { pvc_name = none; mount_path = none }
      ∷ record { pvc_name = some (codes "d"); mount_path = some (codes "/b") }
      ∷ [];
  env = record { name = some (codes "HOME"); value = some (codes "/h") } ∷ [];
  command = some (codes "a 'b c'");
  args = none;
  ports =
      record {
        name = some (codes "p");
        type = some (codes "tcp");
        container_port = some (whole 80);
      }
      ∷ [];
  rdma_enabled = false;
  rdma_type = none;
  egress_unrestricted = false;
  node_name = none;
  ssh_enabled = true;
  ssh_keys = some (codes "ssh-rsa AAAABBBBCCCCDDDD me\n");
}

abbrev plan : Plan
plan = record {
  volumes =
      record { name = codes "d"; pvc_name = codes "d"; mount_path = codes "/a" }
      ∷ record { name = codes "d-2"; pvc_name = codes "d"; mount_path = codes "/b" }
      ∷ [];
  env = record { name = codes "HOME"; value = codes "/h" } ∷ [];
  command = codes "a" ∷ codes "b c" ∷ [];
  args = [];
  ports = record { name = codes "p"; type = codes "tcp"; container_port = 80 } ∷ [];
  ssh_user_keys = codes "ssh-rsa AAAABBBBCCCCDDDD me\n";
}

planned : plan_of same request ≡ accepted plan
unfolding plan_of check_head check_accelerator check_sizes check_identity check_workspace
    check_network ssh_keys_of key_lines check_keys split_newlines arguments_of split_args split_loop
    split_step volumes_of volume_of env_of env_var_of ports_of port_of is_no_mount_path is_dns_label
    is_runtime_user is_gpu_model is_node_name is_env_name is_public_key is_key_of is_key_end
    is_comment unique_name next_free volume_name_base trim trim_start trim_end is_space text_eq
    decimal
planned = refl

abbrev api : Api
api = record {
  namespaces = some (none ∷ some (codes "lab") ∷ []);
  existing = some (record { name = some (codes "box"); namespace = some (codes "other") } ∷ []);
  created = some none;
  secret_written = true;
  deleted = true;
}

answered : (post same api (codes "h") request).response ≡ Response.created (codes "box")
unfolding post with_plan with_namespaces with_existing write_environment write_secret text_eq
answered = ap (λ c. (with_plan api (codes "h") request c).response) planned

post-created_example :
    All (IsMade same api request) (post same api (codes "h") request).calls
    × ((n : Text)
        → (post same api (codes "h") request).response ≡ Response.created n
        → IsWritten same (post same api (codes "h") request) n)
post-created_example = post-created same api (codes "h") request

-- The environment of the request is written.
written : IsWritten same (post same api (codes "h") request) (codes "box")
written = (post-created same api (codes "h") request).1 (codes "box") answered

-- The API takes the resource and not the Secret of the keys.
abbrev half_way : Api
half_way = record api { secret_written = false }

post-left_example :
    left_by (post same half_way (codes "h") request).calls []
    ≡ announced (codes "lab") (post same half_way (codes "h") request).response
post-left_example = post-left same half_way (codes "h") request refl

nothing_left : announced (codes "lab") (post same half_way (codes "h") request).response ≡ []
unfolding post with_plan with_namespaces with_existing write_environment write_secret announced
    text_eq
nothing_left =
    ap (λ c. announced (codes "lab") (with_plan half_way (codes "h") request c).response) planned

split_args-quoted_example :
    split_args (join (codes " ") (map quoted (codes "a b" ∷ codes "it's" ∷ [])))
    ≡ some (codes "a b" ∷ codes "it's" ∷ [])
split_args-quoted_example = split_args-quoted (codes "a b" ∷ codes "it's" ∷ []) (refl, (refl, tt))

open_quote : split_args (codes "a \"b") ≡ none
unfolding split_args split_loop split_step is_space
open_quote = refl

unique_name-fresh_example :
    includes (codes "d" ∷ codes "d-2" ∷ []) (unique_name (codes "d" ∷ codes "d-2" ∷ []) (codes "d"))
    ≡ false
unique_name-fresh_example = unique_name-fresh (codes "d" ∷ codes "d-2" ∷ []) (codes "d")

abbrev secretive : DevEnv
secretive = record {
  name = some (codes "box");
  namespace = some (codes "lab");
  creation_timestamp = none;
  type = none;
  image = none;
  running = none;
  gpu = none;
  cpu = none;
  memory = none;
  storage = none;
  volumes = [];
  ports = [];
  env = record { name = some (codes "TOKEN"); value = some (codes "x"); value_from = none } ∷ [];
  command = [];
  args = [];
  idle_timeout = none;
  node_selector = [];
  egress_unrestricted = none;
  ssh_enabled = none;
  phase = none;
  phase_reason = none;
  endpoints = [];
  conditions = [];
  ssh_client_key_secret = none;
  jupyter_token_secret = none;
}

project-hides_example :
    project (record secretive { env = with_values (λ t. codes "y") secretive.env })
    ≡ project secretive
project-hides_example = project-hides (λ t. codes "y") secretive
