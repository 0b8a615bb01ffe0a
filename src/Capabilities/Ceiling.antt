-- ===== src/Capabilities/Ceiling.antt =====
-- packages/protocol/src/capabilities.ts: grants against the ceiling.
use remote_sql_agent.Prelude.{
  ◌≡◌, refl, sym, ◌⊎◌, inl, inr, ◌↔◌, List, [], ◌∷◌, String, str_eq, eq_iff, some, arith, Elem,
  Elem-filter, find-some, has, has_iff, Elem-add, Option-cases,
}
use remote_sql_agent.Capabilities.{
  Capability, Capability-discrete, observe, capability_name, capabilities, as_capability, Tier,
  read_only, tier_capabilities, grant_one, grant_all, always_granted, effective_capabilities,
}

as_capability-name : (c : Capability) → as_capability (capability_name c) ≡ some c
unfolding as_capability
as_capability-name Capability.observe = refl
as_capability-name _ = refl

name-as_capability :
    (s : String) (c : Capability) → as_capability s ≡ some c → s ≡ capability_name c
unfolding as_capability
name-as_capability s c h = sym (
    (eq_iff (capability_name c) s).0
      (find-some (λ (x : Capability). str_eq (capability_name x) s) c capabilities h).1)

Elem-capabilities : (c : Capability) → Elem c capabilities
Elem-capabilities Capability.observe = inl refl
Elem-capabilities _ = ground arith

-- One granted string adds exactly the capability that it names, if the ceiling has it.
Elem-grant_one :
    (t : Tier) (g : List Capability) (s : String) (c : Capability)
    → Elem c (grant_one t g s)
      ↔ (Elem c g ⊎ ((s ≡ capability_name c) × Elem c (tier_capabilities t)))
unfolding grant_one
Elem-grant_one t g s c = elim (Option-cases (as_capability s)) [
  | inl e ↦ ground (arith, as_capability-name c, e)
  | inr (d, e) ↦ ground (
    arith,
    as_capability-name c,
    name-as_capability s d e,
    has_iff Capability-discrete (tier_capabilities t) d,
    Elem-add Capability-discrete g d c,
  )
]

Elem-grant_all :
    (t : Tier) (g : List Capability) (ss : List String) (c : Capability)
    → Elem c (grant_all t g ss)
      ↔ (Elem c g ⊎ (Elem (capability_name c) ss × Elem c (tier_capabilities t)))
unfolding grant_all
Elem-grant_all t g [] c = ground arith
Elem-grant_all t g (s ∷ ss) c =
    ground (arith, Elem-grant_all t (grant_one t g s) ss c, Elem-grant_one t g s c)

observe-in_tier : (t : Tier) → Elem observe (tier_capabilities t)
unfolding tier_capabilities
observe-in_tier read_only = inl refl
observe-in_tier _ = inl refl

-- A capability is effective exactly when it is `observe`, or the server granted it by name and the
-- worker's ceiling has it: nothing above the ceiling and no unknown string gets through.
pub Elem-effective_capabilities :
    (grants : List String) (t : Tier) (c : Capability)
    → Elem c (effective_capabilities grants t)
      ↔ ((c ≡ observe) ⊎ (Elem (capability_name c) grants × Elem c (tier_capabilities t)))
unfolding effective_capabilities
Elem-effective_capabilities grants t c = ground (
  arith,
  Elem-filter (has Capability-discrete (grant_all t always_granted grants)) c capabilities,
  has_iff Capability-discrete (grant_all t always_granted grants) c,
  Elem-grant_all t always_granted grants c,
  Elem-capabilities c,
)

-- No server grant makes a capability effective that the worker's own ceiling lacks.
pub effective_within_ceiling :
    (grants : List String) (t : Tier) (c : Capability)
    → Elem c (effective_capabilities grants t)
    → Elem c (tier_capabilities t)
effective_within_ceiling grants t c h = elim ((Elem-effective_capabilities grants t c).0 h) [
  | inl e ↦ rw e (observe-in_tier t)
  | inr p ↦ p.1
]
