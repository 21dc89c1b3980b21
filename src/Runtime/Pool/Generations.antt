-- ===== src/Runtime/Pool/Generations.antt =====
-- What the pool hands out, what it drops, and its bound.
use ember_edge.Prelude.{
  ℕ, ◌≤◌, ◌<◌, ◌≡◌, refl, ap, inl, inr, false, Option, none, some, List, [], ◌∷◌, ◌++◌, arith,
  length, length-append, All, max, Bool-cases,
}
use ember_edge.Text.Basic.{Str, str_eq, str_eq_iff}
use ember_edge.Errors.{Error}
use ember_edge.Errors.Monad.{Result, ok, ◌>>=◌}
use ember_edge.Runtime.Pool.{Prepared, InstancePool, new, scan, acquire, release}

module _ {I : Type 0} where
  -- The entries that `scan` drops are of other digests.
  abbrev pub IsStale : Str → Prepared I → Type 0
  IsStale digest p = str_eq p.digest digest ≡ false

  -- The scan either finds the first entry of the digest and leaves what stood behind it, or finds
  -- none and leaves nothing.
  abbrev pub Scanned : Str → List (Prepared I) → Option (Prepared I) × List (Prepared I) → Type 0
  Scanned digest queue (some p, rest) =
      (p.digest ≡ digest)
      × ((stale : List (Prepared I)) × (queue ≡ stale ++ (p ∷ rest)) × All (IsStale digest) stale)
  Scanned digest queue (none, rest) = (rest ≡ []) × All (IsStale digest) queue

  Scanned-skip :
      (digest : Str) (p : Prepared I) (ps : List (Prepared I))
      (r : Option (Prepared I) × List (Prepared I))
      → IsStale digest p
      → Scanned digest ps r
      → Scanned digest (p ∷ ps) r
  Scanned-skip digest p ps (some q, rest) s (same, (stale, cut, old)) =
      (same, (p ∷ stale, ap (λ l. p ∷ l) cut, (s, old)))
  Scanned-skip digest p ps (none, rest) s (gone, old) = (gone, (s, old))

  pub scan-Scanned :
      (digest : Str) (queue : List (Prepared I)) → Scanned digest queue (scan digest queue)
  unfolding scan
  scan-Scanned digest [] = (refl, tt)
  scan-Scanned digest (p ∷ ps) = elim (Bool-cases (str_eq p.digest digest)) [
    | inl hit ↦ rw hit ((str_eq_iff p.digest digest).0 hit, ([], refl, tt))
    | inr miss ↦ rw miss (Scanned-skip digest p ps (scan digest ps) miss (scan-Scanned digest ps))
  ]

  scan-none :
      (digest : Str) (queue : List (Prepared I))
      → All (IsStale digest) queue
      → scan digest queue ≡ (none, [])
  unfolding scan
  scan-none digest [] old = refl
  scan-none digest (p ∷ ps) old = rw (old.0) (scan-none digest ps old.1)

  -- An instance that `acquire` hands out is of the digest that was asked for.
  pub acquire-digest :
      (pool pool' : InstancePool I) (digest : Str) (build : Result Error I) (p : Prepared I)
      → acquire pool digest build ≡ (pool', ok p)
      → p.digest ≡ digest
  unfolding acquire
  acquire-digest pool pool' digest build p h =
      go (scan digest pool.queue) (scan-Scanned digest pool.queue)
        (ap (λ (r : InstancePool I × Result Error (Prepared I)). r.1) h)
    where
      go :
          (r : Option (Prepared I) × List (Prepared I))
          → Scanned digest pool.queue r
          → (elim r.0 [
            | some q ↦ ok q
            | none ↦ build >>= λ i. ok (record { digest = digest; store = i })
          ])
            ≡ ok p
          → p.digest ≡ digest
      go (some q, rest) (same, _) e = ground arith
      go (none, rest) s e = ground arith

  length-scan :
      (digest : Str) (queue : List (Prepared I)) → length (scan digest queue).1 ≤ length queue
  unfolding scan
  length-scan digest [] = omega arith
  length-scan digest (p ∷ ps) = ground (arith, length-scan digest ps)

  -- A pool has room for one instance at least, and holds no more than it has room for.
  pub record IsBounded (pool : InstancePool I) : Type 0 where
    pub room : 0 < pool.cap
    pub within : length pool.queue ≤ pool.cap

  pub new-IsBounded : (cap : ℕ) → IsBounded (new cap)
  unfolding new
  new-IsBounded cap = omega arith

  pub acquire-IsBounded :
      (pool : InstancePool I) (digest : Str) (build : Result Error I)
      → IsBounded pool
      → IsBounded (acquire pool digest build).0
  unfolding acquire
  acquire-IsBounded pool digest build v = record {
    room = v.room;
    within = omega (arith, v.within, length-scan digest pool.queue);
  }

  pub release-IsBounded :
      (pool : InstancePool I) (p : Prepared I) → IsBounded pool → IsBounded (release pool p)
  unfolding release
  release-IsBounded pool p v = ground (arith, v.room, v.within, length-append pool.queue (p ∷ []))

-- The calls that a pool sees, in the order in which they take the lock.
pub data Call (I : Type 0) : Type 0 where
  acquires : Str → Result Error I → Call I
  releases : Prepared I → Call I

module _ {I : Type 0} where
  unfoldable pub step : InstancePool I → Call I → InstancePool I
  step pool (acquires digest build) = (acquire pool digest build).0
  step pool (releases p) = release pool p

  unfoldable pub run : InstancePool I → List (Call I) → InstancePool I
  run pool [] = pool
  run pool (c ∷ cs) = run (step pool c) cs

  run-IsBounded :
      (pool : InstancePool I) (cs : List (Call I)) → IsBounded pool → IsBounded (run pool cs)
  unfolding run step
  run-IsBounded pool [] v = v
  run-IsBounded pool (acquires digest build ∷ cs) v =
      run-IsBounded (acquire pool digest build).0 cs (acquire-IsBounded pool digest build v)
  run-IsBounded pool (releases p ∷ cs) v =
      run-IsBounded (release pool p) cs (release-IsBounded pool p v)

  run-cap : (pool : InstancePool I) (cs : List (Call I)) → (run pool cs).cap ≡ pool.cap
  unfolding run step acquire release
  run-cap pool [] = refl
  run-cap pool (acquires digest build ∷ cs) = run-cap (acquire pool digest build).0 cs
  run-cap pool (releases p ∷ cs) = ground (arith, run-cap (release pool p) cs)

  -- However the requests of a tenant interleave, its pool never holds more instances than its
  -- capacity, and one is always allowed.
  pub run-length : (cap : ℕ) (cs : List (Call I)) → length (run (new cap) cs).queue ≤ max cap 1
  unfolding new
  run-length cap cs =
      omega (arith, (run-IsBounded (new cap) cs (new-IsBounded cap)).within, run-cap (new cap) cs)

  -- A reload drains the pool: an `acquire` of a digest of which no instance is pooled leaves none
  -- of the old ones, and what it hands out is built now.
  pub acquire-drains :
      (pool : InstancePool I) (digest : Str) (build : Result Error I)
      → All (IsStale digest) pool.queue
      → acquire pool digest build
        ≡ (record pool { queue = [] }, (build >>= λ i. ok (record { digest = digest; store = i })))
  unfolding acquire
  acquire-drains pool digest build old = rw (scan-none digest pool.queue old)
