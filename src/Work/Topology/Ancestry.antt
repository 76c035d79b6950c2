-- ===== src/Work/Topology/Ancestry.antt =====
-- src/noema/work/planning.py, the ancestors that `PlanValidator.validate` collects.
use noema_agent_sdk.Common.{
  String, List, [], ◌∷◌, ◌||◌, ◌==◌, string_eq, contains, ◌≡◌, inl, inr, refl, sym, subst, arith,
  Bool-cases, beq_self,
}
use noema_agent_sdk.Work.Nodes.{WorkDependency}
use noema_agent_sdk.Work.Topology.{
  predecessors_of, update, union, add_ancestors, collect_ancestors, ancestors_along,
}
use noema_agent_sdk.Work.Topology.Positions.{In}

-- `t` leads to `n` through dependencies.
pub data Leads (deps : List WorkDependency) : String → String → Type 0 where
  directly : {p n : String} → In p (predecessors_of deps n) → Leads deps p n
  through : {t p n : String} → Leads deps t p → In p (predecessors_of deps n) → Leads deps t n

contains-union :
    (x : String) (xs ys : List String) → contains x (union xs ys) ≡ (contains x xs || contains x ys)
contains-union x [] ys = refl
contains-union x (y ∷ xs) ys =
    ground (arith, contains-union x xs ys, contains-union y xs ys, string_eq.beq_iff x y)

module _ (deps : List WorkDependency) where
  abbrev IsAncestry : (String → List String) → Type 0
  IsAncestry ancestors = (n t : String) → In t (ancestors n) → Leads deps t n

  IsAncestry-add_ancestors :
      (n : String) (ps : List String) (ancestors : String → List String)
      → ((p : String) → In p ps → In p (predecessors_of deps n))
      → IsAncestry ancestors
      → IsAncestry (add_ancestors n ps ancestors)
  IsAncestry-add_ancestors n [] ancestors before sound = sound
  IsAncestry-add_ancestors n (p ∷ ps) ancestors before sound =
      IsAncestry-add_ancestors n ps
        (update n (union (ancestors p) (union (p ∷ []) (ancestors n))) ancestors)
        (λ q inside. before q (ground arith))
        λ m t h. elim (Bool-cases (n == m)) [
          | inl same ↦
              let direct = before p (ground (arith, beq_self p)) in
              let found : In t (union (ancestors p) (union (p ∷ []) (ancestors n))) =
                ground (arith, h) in
              subst (Leads deps t) ((string_eq.beq_iff n m).0 same)
                (elim (Bool-cases (contains t (ancestors p))) [
                  | inl above ↦ through (sound p t above) direct
                  | inr not_above ↦ elim (Bool-cases (t == p)) [
                    | inl self ↦ directly (
                        subst (λ q. In q (predecessors_of deps n))
                          (sym ((string_eq.beq_iff t p).0 self)) direct)
                    | inr other ↦ sound n t (
                        ground (
                          arith,
                          found,
                          contains-union t (ancestors p) (union (p ∷ []) (ancestors n)),
                          contains-union t (p ∷ []) (ancestors n),
                        ))
                  ]
                ])
          | inr other ↦ sound m t (ground (arith, h))
        ]

  IsAncestry-collect_ancestors :
      (ns : List String) (ancestors : String → List String)
      → IsAncestry ancestors
      → IsAncestry (collect_ancestors deps ns ancestors)
  IsAncestry-collect_ancestors [] ancestors sound = sound
  IsAncestry-collect_ancestors (n ∷ ns) ancestors sound =
      IsAncestry-collect_ancestors ns _
        (IsAncestry-add_ancestors n (predecessors_of deps n) ancestors (λ p h. h) sound)

  -- The ancestors of a node lead to it.
  pub ancestors_along-Leads :
      (visited : List String) (n t : String)
      → In t (ancestors_along deps visited n)
      → Leads deps t n
  unfolding ancestors_along
  ancestors_along-Leads visited =
      IsAncestry-collect_ancestors visited (λ _. []) (λ n t h. absurd (ground (arith, h)))
