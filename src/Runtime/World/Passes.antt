-- ===== src/Runtime/World/Passes.antt =====
-- A reload pass by itself is a run of the world.
use ember_edge.Prelude.{
  ℕ, ◌≡◌, refl, ◌∙◌, false, some, List, [], ◌∷◌, All, lookup, insert, lookup-insert_miss,
  lookup-insert_self, inl, inr, ◌==◌, arith,
}
use ember_edge.Numbers.{address_Eq}
use ember_edge.Errors.Monad.{Result-cases}
use ember_edge.Registry.Action.{Dir}
use ember_edge.Registry.Oci.{Environment}
use ember_edge.Registry.Reload.{HotReloadPolicy}
use ember_edge.Runtime.Tenants.{Tenant, Host}
use ember_edge.Runtime.Invoke.{Machine}
use ember_edge.Runtime.Steps.{answering}
use ember_edge.Runtime.Reload.{poll_tenant, poll_once}
use ember_edge.Runtime.World.{World, polled, Runs, here, next, polls}

-- An address that is none of some others, and addresses that are all different.
abbrev pub IsOther : ℕ → List ℕ → Type 0
IsOther a bs = All (λ b. (b == a) ≡ false) bs

abbrev pub AreDistinct : List ℕ → Type 0
AreDistinct [] = Unit
AreDistinct (a ∷ bs) = IsOther a bs × AreDistinct bs

module _ {I : Type 0} where
  -- The tenants at some addresses.
  abbrev pub Matches : List (ℕ × Tenant I) → List ℕ → List (Tenant I) → Type 0
  Matches m [] [] = Unit
  Matches m [] (t ∷ ts) = ⊥
  Matches m (a ∷ bs) [] = ⊥
  Matches m (a ∷ bs) (t ∷ ts) = (lookup a m ≡ some t) × Matches m bs ts

  -- A change elsewhere.
  insert-Matches :
      (m : List (ℕ × Tenant I)) (a : ℕ) (u : Tenant I) (bs : List ℕ) (ts : List (Tenant I))
      → IsOther a bs
      → Matches m bs ts
      → Matches (insert a u m) bs ts
  insert-Matches m a u [] [] o v = tt
  insert-Matches m a u [] (t ∷ ts) o v = v
  insert-Matches m a u (b ∷ bs) [] o v = v
  insert-Matches m a u (b ∷ bs) (t ∷ ts) (o, os) (h, v) =
      (lookup-insert_miss a b u m (ground (arith, o)) ∙ h, insert-Matches m a u bs ts os v)

module _ {I : Type 0} (host : Host) (machine : Machine I) where
  Runs-trans :
      (u v w : World I) → Runs host machine u v → Runs host machine v w → Runs host machine u w
  Runs-trans u v w r here = r
  Runs-trans u v w r (next {u = x} s m) = next (Runs-trans u v x r s) m

  -- A run that ends with no pass under way and with the given tenants at some addresses; all else is
  -- as it was.
  pub record Passed (w : World I) (bs : List ℕ) (ts : List (Tenant I)) : Type 0 where
    pub after : World I
    pub runs : Runs host machine w after
    pub ended : after.snapshot ≡ []
    pub tenants : Matches after.objects bs ts
    pub others : (a : ℕ) → IsOther a bs → lookup a after.objects ≡ lookup a w.objects
    pub registry : after.registry ≡ w.registry
    pub lookups : after.lookups ≡ w.lookups
    pub invocations : after.invocations ≡ w.invocations

-- What a registry answers may differ from tenant to tenant.
abbrev pub answers : {I : Type 0} → Host → (Tenant I → Environment) → Tenant I → Host
answers host envs t = answering host (envs t)

module _ {I : Type 0} (host : Host) (machine : Machine I) (envs : Tenant I → Environment)
    (policy : HotReloadPolicy) (now : ℕ) (later : Tenant I → ℕ × ℕ) where
  -- A pass by itself is a run of the world: with the tenants of the snapshot, at different addresses,
  -- the run leaves at those addresses what `poll_once` makes of the tenants, whether it comes to its
  -- end or stops at an error, and all else as it was.
  pub poll_once-Passed :
      (w : World I) (bs : List ℕ) (ts : List (Tenant I)) (dir : Dir)
      → w.snapshot ≡ bs
      → AreDistinct bs
      → Matches w.objects bs ts
      → Passed host machine w bs (poll_once (answers host envs) policy now later ts dir).tenants
  unfolding poll_once polled
  poll_once-Passed w [] [] dir s d v = record {
    after = w;
    runs = here;
    ended = s;
    tenants = tt;
    others = λ a o. refl;
    registry = refl;
    lookups = refl;
    invocations = refl;
  }
  poll_once-Passed w [] (t ∷ ts) dir s d v = absurd v
  poll_once-Passed w (a ∷ bs) [] dir s d v = absurd v
  poll_once-Passed w (a ∷ bs) (t ∷ ts) dir s (o, d) (there, v) =
      let p = poll_tenant (answers host envs t) policy now (later t) t dir in
      let u = polled w a bs p in
      let move = polls {w = w} (envs t) policy now (later t) dir a bs t s there in
      let left = insert-Matches w.objects a p.tenant bs ts o v in
      elim (Result-cases p.outcome) [
        | inr (e, failed) ↦
            rw (failed, poll_once)
              (record {
                after = u;
                runs = next here move;
                ended = rw failed refl;
                tenants = (lookup-insert_self a p.tenant w.objects, left);
                others = λ b q. lookup-insert_miss a b p.tenant w.objects q.0;
                registry = refl;
                lookups = refl;
                invocations = refl;
              })
        | inl (x, fine) ↦
            let rest = poll_once-Passed u bs ts p.dir (rw fine refl) d left in
            rw (fine, poll_once)
              (record {
                after = rest.after;
                runs = Runs-trans host machine w u rest.after (next here move) rest.runs;
                ended = rest.ended;
                tenants = (rest.others a o ∙ lookup-insert_self a p.tenant w.objects, rest.tenants);
                others = λ b q. rest.others b q.1 ∙ lookup-insert_miss a b p.tenant w.objects q.0;
                registry = rest.registry;
                lookups = rest.lookups;
                invocations = rest.invocations;
              })
      ]
