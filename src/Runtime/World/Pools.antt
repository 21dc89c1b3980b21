-- ===== src/Runtime/World/Pools.antt =====
-- Whose instances a pool holds.
use ember_edge.Prelude.{
  ◌≡◌, subst, Option, none, some, List, [], ◌∷◌, ◌++◌, All, Bool-cases, inl, inr, arith, ltb,
  length,
}
use ember_edge.Text.Basic.{Str, str_eq}
use ember_edge.Errors.{Error}
use ember_edge.Errors.Monad.{Result, ok, ◌>>=◌, Result-cases}
use ember_edge.Runtime.Pool.{Prepared, InstancePool, scan, acquire, release}

module _ {I : Type 0} (P : Prepared I → Type 0) where
  -- What the scan finds and what it leaves.
  abbrev Found : Option (Prepared I) × List (Prepared I) → Type 0
  Found (none, rest) = All P rest
  Found (some p, rest) = P p × All P rest

  scan-All : (digest : Str) (queue : List (Prepared I)) → All P queue → Found (scan digest queue)
  unfolding scan
  scan-All digest [] v = tt
  scan-All digest (p ∷ ps) v = elim (Bool-cases (str_eq p.digest digest)) [
    | inl hit ↦ rw hit v
    | inr miss ↦ rw miss (scan-All digest ps v.1)
  ]

  All-snoc : (ps : List (Prepared I)) (p : Prepared I) → All P ps → P p → All P (ps ++ (p ∷ []))
  All-snoc [] p v q = (q, tt)
  All-snoc (x ∷ ps) p v q = (v.0, All-snoc ps p v.1 q)

  -- An `acquire` leaves and hands out what was there or what it built.
  pub acquire-All :
      (pool : InstancePool I) (digest : Str) (build : Result Error I)
      → All P pool.queue
      → ((i : I) → build ≡ ok i → P (record { digest = digest; store = i }))
      → All P (acquire pool digest build).0.queue
        × ((p : Prepared I) → (acquire pool digest build).1 ≡ ok p → P p)
  unfolding acquire
  acquire-All pool digest build v made = go (scan digest pool.queue) (scan-All digest pool.queue v)
    where
      go :
          (r : Option (Prepared I) × List (Prepared I))
          → Found r
          → All P r.1
            × ((p : Prepared I)
                → (elim r.0 [
                  | some q ↦ ok q
                  | none ↦ build >>= λ i. ok (record { digest = digest; store = i })
                ])
                  ≡ ok p
                → P p)
      go (some q, rest) (pq, ps) = (ps, λ p e. let s : q ≡ p = ground (arith, e) in rw s at pq)
      go (none, rest) ps = (
        ps,
        λ p e. elim (Result-cases build) [
          | inl (i, b) ↦
              let s : record { digest = digest; store = i } ≡ p = ground (arith, b, e) in
              subst P s (made i b)
          | inr (f, b) ↦ absurd (ground (arith, b, e))
        ],
      )

  pub release-All :
      (pool : InstancePool I) (p : Prepared I)
      → All P pool.queue
      → P p
      → All P (release pool p).queue
  unfolding release
  release-All pool p v q = elim (Bool-cases (ltb (length pool.queue) pool.cap)) [
    | inl room ↦ rw room (All-snoc pool.queue p v q)
    | inr full ↦ rw full v
  ]
