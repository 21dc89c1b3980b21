-- ===== src/Tests/WorldTests.antt =====
-- A world with one tenant and one invocation, on concrete values.
use ember_edge.Prelude.{
  ℕ, ◌*◌, if◌then◌else◌, arith, lookup, insert, ◌≡◌, refl, true, none, some, [], ◌∷◌,
}
use ember_edge.Text.Basic.{Str, text, str_eq, str_eq_iff, str_Eq}
use ember_edge.Text.Decimal.{decimal}
use ember_edge.Numbers.{address_Eq}
use ember_edge.Errors.Monad.{ok, err}
use ember_edge.Component.Linker.{HostCtx, Response, HttpRequest, new_ctx}
use ember_edge.Runtime.Invoke.{Machine, responded, instantiate, serve}
use ember_edge.Runtime.World.{
  World, Invocation, looked_up, empty, register, find, arrive, take_instance, Runs, here, next,
  loads, begins, addresses, finds, arrives, acquires,
}
use ember_edge.Runtime.World.Objects.{IsTracking}
use ember_edge.Runtime.World.Changes.{IsSafe}
use ember_edge.Runtime.World.Safety.{reached-IsSafe}
use ember_edge.Runtime.World.Progress.{PollsOut, pass_ends}
use ember_edge.Runtime.Reload.{poll_once}
use ember_edge.Runtime.World.Passes.{Passed, answers, poll_once-Passed}
use ember_edge.Runtime.World.Sequential.{Turned, serve-Turned}
use ember_edge.Tests.Fixtures.{policy, acme, host, gone_host, stored, files}
use ember_edge.Tests.LoadTests.{config, loaded_tenant, loaded}

-- An instance is a number here, answers every request, and is made for one tenant only.
abbrev reply : Response
reply = record { status = 200; headers = []; body = [] }

abbrev machine : Machine ℕ
machine = record {
  fs = files;
  header_ok = λ n v. true;
  instantiate = λ ctx epoch b. if str_eq ctx.tenant.name acme.name then ok 1 else err (text "no");
  call = λ i r fs. responded i reply;
  scratch_after = λ i r fs. fs;
}

abbrev owner : ℕ → Str
owner i = acme.name

track : IsTracking machine owner
track = record {
  builds = λ ctx deadline b i h. ground (arith, h, str_eq_iff ctx.tenant.name acme.name);
  keeps = λ i j request fs response h. refl;
}

abbrev ctx : HostCtx
ctx = record {
  tenant = acme;
  sandbox = loaded_tenant.sandbox;
  config = [];
  wasi = record {
    env =
        (text "EMBER_TENANT", text "acme")
        ∷ (text "EMBER_SCRATCH_QUOTA", decimal (4 * 1024 * 1024))
        ∷ [];
    preopens = [];
  };
  egress = loaded_tenant.bridge;
}

context : new_ctx machine.fs loaded_tenant.sandbox loaded_tenant.bridge ≡ ok ctx
unfolding new_ctx ember_edge.Wasi.new ember_edge.Wasi.open_preopens
context = refl

-- The tenant is loaded, a reload pass begins, and a request arrives and is given an instance.
abbrev one_tenant : World ℕ
one_tenant = register empty 7 loaded_tenant

abbrev in_pass : World ℕ
in_pass = record one_tenant { snapshot = addresses one_tenant.registry }

abbrev request : Invocation ℕ
request = record {
  name = text "acme";
  tenant = 7;
  active = loaded_tenant.active;
  stage = looked_up;
}

abbrev arrived : World ℕ
arrived = arrive (find in_pass (text "acme") 7) [] [] (text "acme") 7 loaded_tenant

abbrev at_work : World ℕ
at_work = take_instance arrived [] request [] loaded_tenant (instantiate machine loaded_tenant ctx)

begun : Runs host machine empty in_pass
unfolding register lookup
begun =
    next (next here (loads {w = empty} host.env 5 config [] stored 7 loaded_tenant loaded refl))
      (begins {w = one_tenant} refl)

runs : Runs host machine empty at_work
unfolding register find arrive lookup insert str_eq text
runs =
    next
      (next (next begun (finds {w = in_pass} (text "acme") 7 refl))
        (arrives {w = find in_pass (text "acme") 7} [] [] (text "acme") 7 loaded_tenant refl refl))
      (acquires {w = arrived} [] request [] loaded_tenant ctx refl refl refl context)

reached-IsSafe_example : IsSafe owner host at_work
reached-IsSafe_example = reached-IsSafe owner host machine track at_work runs

-- The registry is gone for the pass.
pass_ends_example :
    (u : World ℕ) × PollsOut host
      (λ a. gone_host.env)
      (λ a. stored)
      policy
      10
      (λ a. (11, 12))
      at_work
      u
pass_ends_example =
    pass_ends host (λ a. gone_host.env) (λ a. stored) policy 10 (λ a. (11, 12)) owner machine track
      at_work runs

abbrev http_request : HttpRequest
http_request = record {
  method = text "GET";
  path = text "/acme/x";
  query = none;
  headers = [];
  body = [];
}

registered : lookup (text "acme") in_pass.registry ≡ some 7
unfolding register lookup insert str_eq text
registered = refl

there : lookup 7 in_pass.objects ≡ some loaded_tenant
unfolding register lookup insert
there = refl

serve-Turned_example :
    Turned host machine 10 in_pass 7 (serve machine 10 loaded_tenant http_request).tenant
serve-Turned_example =
    serve-Turned host machine 10 in_pass (text "acme") 7 loaded_tenant http_request registered there

snapshot : in_pass.snapshot ≡ 7 ∷ []
unfolding register insert
snapshot = refl

poll_once-Passed_example :
    Passed host machine in_pass
      (7 ∷ [])
      (poll_once
        (answers host (λ t. gone_host.env))
        policy
        20
        (λ t. (21, 22))
        (loaded_tenant ∷ [])
        []).tenants
poll_once-Passed_example =
    poll_once-Passed host machine (λ t. gone_host.env) policy 20 (λ t. (21, 22)) in_pass (7 ∷ [])
      (loaded_tenant ∷ []) [] snapshot (tt, tt) (there, tt)
