-- ===== src/DevEnvironments/Passed.antt =====
-- What the checks of app/api/devenvironments/route.ts have found where they refuse nothing.
use cubestack.Prelude.{◌≡◌, subst, arith, Text, codes, true, not, []}
use cubestack.DevEnvironments.{accepted, Body}
use cubestack.DevEnvironments.Words.{is_dns_label}
use cubestack.DevEnvironments.Accepted.{
  bind-accepted, accepted-injective, refuse_if-accepted, VolumesWell, EnvWell, volumes_of-distinct,
  env_of-distinct,
}
use cubestack.DevEnvironments.Ports.{PortsWell, ports_of-distinct}
use cubestack.DevEnvironments.Rows.{volumes_of, env_of, ports_of}
use cubestack.DevEnvironments.Request.{
  Plan, plan_of, name_of, mounted_paths, check_head, check_accelerator, check_sizes, check_identity,
  check_workspace, check_network, ssh_keys_of, arguments_of,
}

module _ (to_lower_case : Text → Text) where
  abbrev pub PlanWell : Body → Plan → Type 0
  PlanWell body plan =
      (is_dns_label (name_of body) ≡ true)
      × VolumesWell to_lower_case [] (mounted_paths body) plan.volumes
      × EnvWell [] plan.env
      × PortsWell [] [] plan.ports

  -- The checks of the head, the volumes, the variables and the ports passed, and those before the
  -- volumes too.
  pub record Passed (body : Body) (plan : Plan) : Type 0 where
    pub head : check_head body ≡ accepted tt
    pub identity : check_identity body ≡ accepted tt
    pub volumes :
        volumes_of to_lower_case [] (mounted_paths body) body.volumes ≡ accepted plan.volumes
    pub env : env_of [] body.env ≡ accepted plan.env
    pub ports : ports_of [] [] body.ports ≡ accepted plan.ports

  pub plan_of-Passed :
      (body : Body) (plan : Plan) → plan_of to_lower_case body ≡ accepted plan → Passed body plan
  unfolding plan_of
  plan_of-Passed body plan h =
      let (a, head, h1) = bind-accepted (check_head body) _ plan h in
      let (b, _, h2) = bind-accepted (check_accelerator body) _ plan h1 in
      let (c, _, h3) = bind-accepted (check_sizes body) _ plan h2 in
      let (d, identity, h4) = bind-accepted (check_identity body) _ plan h3 in
      let (e, _, h5) = bind-accepted (check_workspace body) _ plan h4 in
      let (vs, volumes, h6) =
        bind-accepted (volumes_of to_lower_case [] (mounted_paths body) body.volumes) _ plan h5 in
      let (es, env, h7) = bind-accepted (env_of [] body.env) _ plan h6 in
      let (cs, _, h8) =
        bind-accepted (arguments_of body.command (codes "commandUnbalanced")) _ plan h7 in
      let (as_, _, h9) =
        bind-accepted (arguments_of body.args (codes "argsUnbalanced")) _ plan h8 in
      let (ps, ports, h10) = bind-accepted (ports_of [] [] body.ports) _ plan h9 in
      let (f, _, h11) = bind-accepted (check_network body) _ plan h10 in
      let (ks, _, h12) = bind-accepted (ssh_keys_of body) _ plan h11 in
      let e12 = accepted-injective _ plan h12 in
      subst (Passed body) e12
        (record { head = head; identity = identity; volumes = volumes; env = env; ports = ports })

  check_head-label :
      (body : Body) → check_head body ≡ accepted tt → is_dns_label (name_of body) ≡ true
  unfolding check_head
  check_head-label body h =
      ground (arith, (refuse_if-accepted (not (is_dns_label (name_of body))) _ _ _ tt h).0)

  pub plan_of-PlanWell :
      (body : Body) (plan : Plan) → plan_of to_lower_case body ≡ accepted plan → PlanWell body plan
  plan_of-PlanWell body plan h =
      let p = plan_of-Passed body plan h in
      (
        check_head-label body p.head,
        volumes_of-distinct to_lower_case [] (mounted_paths body) body.volumes plan.volumes
            p.volumes,
        env_of-distinct [] body.env plan.env p.env,
        ports_of-distinct [] [] body.ports plan.ports p.ports,
      )
