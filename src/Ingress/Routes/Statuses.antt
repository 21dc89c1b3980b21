-- ===== src/Ingress/Routes/Statuses.antt =====
-- The statuses of the ingress.
use ember_edge.Prelude.{ℕ, ◌≤◌, ◌<◌}
use ember_edge.Text.Basic.{str_Eq}
use ember_edge.TenantId.{TenantId}
use ember_edge.Component.Linker
use ember_edge.Component.Linker.{HttpResponse}
use ember_edge.Runtime.Tenants.{Tenants}
use ember_edge.Runtime.Invoke.{Machine, Reply}
use ember_edge.Ingress.Routes.{Answer, plain, exposition, guest, failure, caught, answer_of}

-- An answer of a guest has a status that HTTP has, and an error is told with its own, one of 4xx and
-- 5xx.
abbrev pub HasStatus : Answer → Type 0
HasStatus (plain status body) = Unit
HasStatus (exposition content_type body) = Unit
HasStatus (guest r) = (100 ≤ r.status) × (r.status ≤ 999)
HasStatus (failure e) = (400 ≤ e.status) × (e.status < 600)
HasStatus caught = Unit

module _ {I : Type 0} (machine : Machine I) (duration : ℕ) where
  abbrev Proper : Reply → Type 0
  Proper reply = HasStatus (answer_of reply)
