-- ===== src/Egress/Bridge/Ports.antt =====
-- `send` asks the policy about the host alone, so the port of a rule restricts nothing.
use ember_edge.Prelude.{
  ℕ, ◌≡◌, refl, true, false, ◌||◌, Option, none, some, List, [], ◌∷◌, ◌++◌, arith, ==_self, any,
  any-append, Bool,
}
use ember_edge.Text.Basic.{
  Str, text, strip_prefix, split_at_first, rsplit_once, contains_char, split,
}
use ember_edge.Text.Ascii.{eq_ignore_case_iff}
use ember_edge.Errors.Monad.{Result}
use ember_edge.Egress.Pattern.{
  split_scheme, split_authority, zip_all, label_matches, star_match, labels_match, host_matches,
  pattern_matches,
}
use ember_edge.Egress.Pattern.Wildcards.{suffix_matches_complete}
use ember_edge.Egress.Policy.{allows}
use ember_edge.Egress.Bridge.{
  OutboundRequest, WireRequest, WireResponse, HttpBridge, wire_request, send,
}

no_scheme : (s : Str) → contains_char b'/' s ≡ false → split_at_first (text "://") s ≡ none
unfolding split_at_first contains_char strip_prefix text
no_scheme [] h = refl
no_scheme (x ∷ []) h = ground arith
no_scheme (x ∷ y ∷ s) h = ground (arith, no_scheme (y ∷ s))

rsplit_once-none : (c : ℕ) (s : Str) → contains_char c s ≡ false → rsplit_once c s ≡ none
unfolding rsplit_once contains_char
rsplit_once-none c [] h = refl
rsplit_once-none c (x ∷ s) h = ground (arith, rsplit_once-none c s)

rsplit_once-append :
    (c : ℕ) (a b : Str) → contains_char c b ≡ false → rsplit_once c (a ++ (c ∷ b)) ≡ some (a, b)
unfolding rsplit_once
rsplit_once-append c [] b h = rw (rsplit_once-none c b h, ==_self c)
rsplit_once-append c (x ∷ a) b h = rw (rsplit_once-append c a b h)

contains_char-append :
    (c : ℕ) (a b : Str) → contains_char c (a ++ b) ≡ (contains_char c a || contains_char c b)
unfolding contains_char
contains_char-append c [] b = refl
contains_char-append c (x ∷ a) b = ground (arith, contains_char-append c a b)

zip_all-label_refl : (ps : List Str) → zip_all label_matches ps ps ≡ true
unfolding zip_all label_matches
zip_all-label_refl [] = refl
zip_all-label_refl (p ∷ ps) = ground (arith, zip_all-label_refl ps, eq_ignore_case_iff p p)

labels_match_refl : (ps : List Str) → labels_match ps ps ≡ true
unfolding labels_match star_match
labels_match_refl [] = refl
labels_match_refl (p ∷ []) = ground (arith, zip_all-label_refl (p ∷ []))
labels_match_refl (p ∷ q ∷ qs) = ground (
  arith,
  zip_all-label_refl (p ∷ q ∷ qs),
  suffix_matches_complete (q ∷ qs) (p ∷ []) (q ∷ qs) refl,
)

-- A host text: no scheme, port or bracket in it.
pub record IsHost (h : Str) : Type 0 where
  pub no_slash : contains_char b'/' h ≡ false
  pub no_colon : contains_char b':' h ≡ false
  pub no_bracket : contains_char b']' h ≡ false

pub record IsPort (p : Str) : Type 0 where
  pub no_slash : contains_char b'/' p ≡ false
  pub no_colon : contains_char b':' p ≡ false

slash_free :
    (h port : Str) → IsHost h → IsPort port → contains_char b'/' (h ++ (b':' ∷ port)) ≡ false
unfolding contains_char
slash_free h port v w =
    ground (arith, contains_char-append b'/' h (b':' ∷ port), v.no_slash, w.no_slash)

split_scheme-plain : (s : Str) → contains_char b'/' s ≡ false → split_scheme s ≡ (none, s)
unfolding split_scheme
split_scheme-plain s h = ground (arith, no_scheme s h)

split_authority-plain : (h : Str) → IsHost h → split_authority h ≡ (h, none)
unfolding split_authority
split_authority-plain h v = ground (arith, rsplit_once-none b':' h v.no_colon)

split_authority-port :
    (h port : Str) → IsHost h → IsPort port → split_authority (h ++ (b':' ∷ port)) ≡ (h, some port)
unfolding split_authority
split_authority-port h port v w =
    ground (arith, rsplit_once-append b':' h port w.no_colon, v.no_bracket)

pattern_matches-port :
    (h port : Str) → IsHost h → IsPort port → pattern_matches (h ++ (b':' ∷ port)) h ≡ true
unfolding pattern_matches host_matches
pattern_matches-port h port v w =
    rw
      (
        split_scheme-plain h v.no_slash,
        split_scheme-plain (h ++ (b':' ∷ port)) (slash_free h port v w),
        pattern_matches,
      )
      (rw (split_authority-port h port v w, split_authority-plain h v)
        (labels_match_refl (split b'.' h)))

any-among :
    {A : Type 0} (p : A → Bool) (front : List A) (x : A) (back : List A)
    → p x ≡ true
    → any p (front ++ (x ∷ back)) ≡ true
any-among p front x back h = ground (arith, any-append p front (x ∷ back), h)

-- For a host without slash, colon or bracket and a port without slash or colon: where the rule
-- `host:port` is anywhere among those allowed, `send` treats a request to any port of that host as
-- it does when nothing is denied.
pub send_ignores_port :
    (client : WireRequest → Result Str WireResponse) (bridge : HttpBridge) (req : OutboundRequest)
    (host port : Str) (other : Option Str) (front back : List Str)
    → IsHost host
    → IsPort port
    → bridge.policy.allow ≡ front ++ ((host ++ (b':' ∷ port)) ∷ back)
    → req.authority ≡ some (record { host = host; port = other })
    → send client bridge req
      ≡ send client (record bridge { policy = record { allow = []; default_deny = false } }) req
unfolding send allows wire_request
send_ignores_port client bridge req host port other front back v w e a = rw (
  a,
  e,
  any-among (λ rule. pattern_matches rule host) front (host ++ (b':' ∷ port)) back
      (pattern_matches-port host port v w),
)
