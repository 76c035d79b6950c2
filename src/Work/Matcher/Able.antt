-- ===== src/Work/Matcher/Able.antt =====
-- src/noema/work/coordination.py, `WorkerMatcher`: what a worker is able to do.
use noema_agent_sdk.Common.{
  String, true, false, some, List, [], ◌∷◌, Bool-cases, Option-cases, ◌≡◌, inl, inr, subst, arith,
  sym, string_eq,
}
use noema_agent_sdk.Work.Values.{CompetenceBasis}
use noema_agent_sdk.Work.Nodes.{WorkNode}
use noema_agent_sdk.Work.Estimates.{CompetenceEstimate, is_seeded}
use noema_agent_sdk.Work.Manifests.{CapabilityManifest}
use noema_agent_sdk.Work.Planning.Legal.{is_subset-In}
use noema_agent_sdk.Common.Dict.{Dict, lookup}
use noema_agent_sdk.Common.{pair_eq, is_subset, any, not, ◌==◌, string_eq}
use noema_agent_sdk.Work.Topology.Positions.{In}
use noema_agent_sdk.Work.Projection.{PlanningFacts}
use noema_agent_sdk.Work.Matcher.{known_estimates, usable_estimates}

-- The agent's manifest has every capability that the node requires, and the agent has an estimate
-- for each of them, whose basis is that it was seeded.
abbrev pub Able : PlanningFacts → WorkNode → String → Type 0
Able f n a =
    (m : CapabilityManifest) × (lookup a f.manifests ≡ some m)
    × ((c : String)
        → In c n.required_capabilities
        → In c m.capabilities
          × ((e : CompetenceEstimate) × (lookup (a, c) f.competence ≡ some e)
              × (e.basis ≡ CompetenceBasis.seeded)))

seeded_basis : (b : CompetenceBasis) → is_seeded b ≡ true → b ≡ CompetenceBasis.seeded
seeded_basis b h = ground (arith, h)

known_estimates-In :
    (competence : Dict (String × String) CompetenceEstimate) (a c : String) (cs : List String)
    (es : List CompetenceEstimate)
    → known_estimates competence a cs ≡ some es
    → any (λ e. not (is_seeded e.basis)) es ≡ false
    → In c cs
    → (e : CompetenceEstimate) × (lookup (a, c) competence ≡ some e)
      × (e.basis ≡ CompetenceBasis.seeded)
known_estimates-In competence a c [] es found seeded inside = absurd (ground (arith, inside))
known_estimates-In competence a c (d ∷ cs) es found seeded inside =
    elim (Option-cases (lookup (a, d) competence)) [
      | inl missing ↦ absurd (ground (arith, found, missing))
      | inr (e, there) ↦ elim (Option-cases (known_estimates competence a cs)) [
        | inl short ↦ absurd (ground (arith, found, there, short))
        | inr (rest, others) ↦
            let all_of : e ∷ rest ≡ es = ground (arith, found, there, others) in
            let fine =
              subst (λ l. any (λ x. not (is_seeded x.basis)) l ≡ false) (sym all_of) seeded in
            elim (Bool-cases (c == d)) [
              | inl same ↦ (
                e,
                subst (λ x. lookup (a, x) competence ≡ some e)
                    (sym ((string_eq.beq_iff c d).0 same)) there,
                seeded_basis e.basis (ground (arith, fine)),
              )
              | inr other ↦
                  known_estimates-In competence a c cs rest others (ground (arith, fine))
                    (ground (arith, inside, other))
            ]
      ]
    ]

-- An agent with usable estimates declares the node's capabilities and has a seeded estimate for each.
pub usable_estimates-Able :
    (f : PlanningFacts) (n : WorkNode) (a : String) (es : List CompetenceEstimate)
    → usable_estimates f n a ≡ some es
    → Able f n a
usable_estimates-Able f n a es h = elim (Option-cases (lookup a f.manifests)) [
  | inl missing ↦ absurd (ground (arith, h, missing))
  | inr (m, declared) ↦ elim (Bool-cases (is_subset n.required_capabilities m.capabilities)) [
    | inr lacks ↦ absurd (ground (arith, h, declared, lacks))
    | inl covers ↦ elim (Option-cases (known_estimates f.competence a n.required_capabilities)) [
      | inl missing ↦ absurd (ground (arith, h, declared, covers, missing))
      | inr (known, found) ↦ elim (Bool-cases (any (λ c. not (is_seeded c.basis)) known)) [
        | inl empirical ↦ absurd (ground (arith, h, declared, covers, found, empirical))
        | inr seeded ↦ (
          m,
          declared,
          λ c inside. (
            is_subset-In c n.required_capabilities m.capabilities covers inside,
            known_estimates-In f.competence a c n.required_capabilities known found seeded inside,
          ),
        )
      ]
    ]
  ]
]
