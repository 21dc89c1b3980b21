-- ===== src/Registry/Action/Achieves.antt =====
-- Actions that succeed from any directory with a property, leave one with it, and whose result has a
-- property.
use ember_edge.Prelude.{◌≡◌, ◌≢◌, ◌∙◌, refl, ap}
use ember_edge.Errors.{Error}
use ember_edge.Errors.Monad.{Result, ok, err}
use ember_edge.Registry.Action.{Dir, Action, ◌>>=◌, continue, lift}
use ember_edge.Registry.Action.Yields.{Anything}

pub record Achieves {A : Type 0} (P : Dir → Type 0) (Q : A → Type 0) (m : Action A) : Type 0 where
  pub at : (dir : Dir) → P dir → (dir' : Dir) × (a : A) × (m dir ≡ (dir', ok a)) × P dir' × Q a

pub Achieves-bind :
    {A B : Type 0} (P : Dir → Type 0) (Q : A → Type 0) (R : B → Type 0) (m : Action A)
    (f : A → Action B)
    → Achieves P Q m
    → ((a : A) → Q a → Achieves P R (f a))
    → Achieves P R (m >>= f)
unfolding ◌>>=◌
Achieves-bind P Q R m f km kf = record {
  at = λ dir p.
      let (dir', a, e, p', q) = km.at dir p in
      let (dir'', b, e', p'', r) = (kf a q).at dir' p' in
      (dir'', b, ap (λ x. continue x f) e ∙ e', p'', r);
}

pub Achieves-ok :
    {A : Type 0} (P : Dir → Type 0) (Q : A → Type 0) (r : Result Error A) (a : A)
    → r ≡ ok a
    → Q a
    → Achieves P Q (lift r)
Achieves-ok P Q r a e q = record { at = λ dir p. (dir, a, ap (λ x. (dir, x)) e, p, q) }

-- A result that is no error.
pub Achieves-lift :
    {A : Type 0} (P : Dir → Type 0) (r : Result Error A)
    → ((e : Error) → r ≢ err e)
    → Achieves P Anything (lift r)
Achieves-lift P (ok a) h = Achieves-ok P Anything (ok a) a refl tt
Achieves-lift P (err e) h = absurd (h e refl)
