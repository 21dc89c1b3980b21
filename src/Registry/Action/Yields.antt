-- ===== src/Registry/Action/Yields.antt =====
-- Actions that keep a property of the directory, whether they succeed or fail, and whose result has
-- a property when they succeed.
use ember_edge.Prelude.{◌≡◌, refl, ap}
use ember_edge.Errors.{Error}
use ember_edge.Errors.Monad.{Result, ok, err}
use ember_edge.Registry.Action.{Dir, Action, ◌>>=◌, continue, lift}

abbrev pub Outcome : {A : Type 0} → (Dir → Type 0) → (A → Type 0) → Dir × Result Error A → Type 0
Outcome P Q (dir, ok a) = P dir × Q a
Outcome P Q (dir, err e) = P dir

-- Nothing is said of the result.
abbrev pub Anything : {A : Type 0} → A → Type 0
Anything a = Unit

pub record Yields {A : Type 0} (P : Dir → Type 0) (Q : A → Type 0) (m : Action A) : Type 0 where
  pub at : (dir : Dir) → P dir → Outcome P Q (m dir)

pub Yields-bind :
    {A B : Type 0} (P : Dir → Type 0) (Q : A → Type 0) (R : B → Type 0) (m : Action A)
    (f : A → Action B)
    → Yields P Q m
    → ((a : A) → Q a → Yields P R (f a))
    → Yields P R (m >>= f)
unfolding ◌>>=◌
Yields-bind {A} {B} P Q R m f km kf = record { at = λ dir p. go (m dir) (km.at dir p) }
  where
    go : (r : Dir × Result Error A) → Outcome P Q r → Outcome P R (continue r f)
    go (dir', ok a) (p, q) = (kf a q).at dir' p
    go (dir', err e) p = p

pub Outcome-any :
    {A : Type 0} (P : Dir → Type 0) (r : Dir × Result Error A) → P r.0 → Outcome P Anything r
Outcome-any P (dir, ok a) p = (p, tt)
Outcome-any P (dir, err e) p = p

-- A result that leaves the directory alone.
pub Outcome-same :
    {A : Type 0} (P : Dir → Type 0) (Q : A → Type 0) (dir : Dir) (r : Result Error A)
    → P dir
    → ((a : A) → r ≡ ok a → Q a)
    → Outcome P Q (dir, r)
Outcome-same P Q dir (ok a) p q = (p, q a refl)
Outcome-same P Q dir (err e) p q = p

pub Outcome-ok :
    {A : Type 0} (P : Dir → Type 0) (Q : A → Type 0) (r : Dir × Result Error A) (dir : Dir) (a : A)
    → Outcome P Q r
    → r ≡ (dir, ok a)
    → P dir × Q a
Outcome-ok P Q r dir a o e = rw e at o

pub Outcome-kept :
    {A : Type 0} (P : Dir → Type 0) (Q : A → Type 0) (r : Dir × Result Error A)
    → Outcome P Q r
    → P r.0
Outcome-kept P Q (dir, ok a) o = o.0
Outcome-kept P Q (dir, err e) o = o

pub Yields-lift : {A : Type 0} (P : Dir → Type 0) (r : Result Error A) → Yields P Anything (lift r)
Yields-lift P r = record { at = λ dir p. Outcome-any P (dir, r) p }

-- The first of two actions has succeeded where both have, and the second went on from what it left.
pub bind-ok :
    {A B : Type 0} (m : Action A) (f : A → Action B) (dir dir' : Dir) (b : B)
    → (m >>= f) dir ≡ (dir', ok b)
    → (between : Dir) × (a : A) × (m dir ≡ (between, ok a)) × (f a between ≡ (dir', ok b))
unfolding ◌>>=◌
bind-ok {A} {B} m f dir dir' b h = go (m dir) refl h
  where
    go :
        (r : Dir × Result Error A)
        → m dir ≡ r
        → continue r f ≡ (dir', ok b)
        → (between : Dir) × (a : A) × (m dir ≡ (between, ok a)) × (f a between ≡ (dir', ok b))
    go (between, ok a) e k = (between, a, e, k)
    go (between, err x) e k =
        let wrong : err x ≡ ok b = ap (λ (r : Dir × Result Error B). r.1) k in absurd (cc wrong)
