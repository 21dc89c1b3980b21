-- ===== src/Tests/LoopTests.antt =====
-- The reload loop over several turns, on concrete values.
use ember_edge.Prelude.{ℕ, ◌≡◌, ◌++◌, ◌+◌, refl, sym, subst, none, List, [], ◌∷◌, All, arith}
use ember_edge.Text.Basic.{Str, text}
use ember_edge.Errors.{Error}
use ember_edge.Errors.Monad.{err}
use ember_edge.Registry.Action.{Dir}
use ember_edge.Registry.Facade.{pull}
use ember_edge.Registry.Store.Integrity.{empty-IsIntact}
use ember_edge.Runtime.Reload.Loop.{Turn, reload_loop}
use ember_edge.Runtime.Reload.Passes.{IsReady, offered, AllFollow}
use ember_edge.Runtime.Reload.Recovers.{reload_loop-recovers}
use ember_edge.Runtime.Reload.Parks.{IsDown, failing, parkings, reload_loop-parks}
use ember_edge.Tests.Fixtures.{
  policy, host, gone_host, hex_of, reference, guest_digest, acme_tenant,
}
use ember_edge.Tests.ProgressTests.{offer}

abbrev gone : Error
gone = Error.oci (text "pull manifest `acme/guest`: gone")

away : (dir : Dir) → pull gone_host.env gone_host.client reference none dir ≡ (dir, err gone)
unfolding pull ember_edge.Registry.Oci.fetch_component ember_edge.Registry.Oci.resolve
    ember_edge.Registry.Oci.pull_manifest text ember_edge.Registry.Oci.qualify
    ember_edge.Text.Basic.contains_char
away dir = refl

-- Turns ten apart.
abbrev turn : ℕ → Turn ℕ
turn n = record { hosts = λ t. gone_host; now = n; later = λ t. (n + 1, n + 2) }

down : (n : ℕ) → IsDown policy acme_tenant (turn (n + 5))
down n = record {
  reference = reference;
  pin = none;
  same_source = refl;
  due = omega arith;
  fails = λ k dir. (dir, gone, away dir);
}

abbrev turns : List (Turn ℕ)
turns = turn (5 + 5) ∷ turn (15 + 5) ∷ turn (25 + 5) ∷ []

reload_loop-parks_example :
    ((reload_loop policy turns (acme_tenant ∷ []) []).tenants
      ≡ record acme_tenant { failures = 3 } ∷ [])
    × ((reload_loop policy turns (acme_tenant ∷ []) []).samples ≡ parkings policy (text "acme") 0 3)
reload_loop-parks_example =
    reload_loop-parks policy acme_tenant turns [] (omega arith) (down 5, (down 15, (down 25, tt)))

-- The registry is away for a turn, and back in the next.
abbrev last : Turn ℕ
last = record { hosts = λ t. host; now = 20; later = λ t. (21, 22) }

after_one :
    (reload_loop policy (turn (5 + 5) ∷ []) (acme_tenant ∷ []) []).tenants
    ≡ failing acme_tenant 1 ∷ []
after_one =
    (reload_loop-parks policy acme_tenant (turn (5 + 5) ∷ []) [] (omega arith) (down 5, tt)).0

ready :
    All
      (IsReady hex_of last.hosts policy 20 (λ t. (21, 22)))
      (reload_loop policy (turn (5 + 5) ∷ []) (acme_tenant ∷ []) []).tenants
ready =
    subst (All (IsReady hex_of last.hosts policy 20 (λ t. (21, 22)))) (sym after_one)
      (offered guest_digest (omega arith) offer, tt)

reload_loop-recovers_example :
    AllFollow hex_of last.hosts policy 20
      (λ t. (21, 22))
      (reload_loop policy (turn (5 + 5) ∷ []) (acme_tenant ∷ []) []).tenants
      (reload_loop policy ((turn (5 + 5) ∷ []) ++ (last ∷ [])) (acme_tenant ∷ []) []).tenants
      ready
reload_loop-recovers_example =
    reload_loop-recovers hex_of policy (turn (5 + 5) ∷ []) last (acme_tenant ∷ []) []
      ((λ t. refl), tt) (empty-IsIntact hex_of) ready
