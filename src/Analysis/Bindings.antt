-- ===== src/Analysis/Bindings.antt =====
-- backends/analysis: what the ids of a valid request name, so that no lookup of the orchestrator misses.
use stability_toys.Prelude.{◌+◌, String, true, not, List, [], ◌∷◌, ◌++◌, map, ◌≡◌, arith, length}
use stability_toys.Prelude.Dict.{Dict, contains, insert, lookup-insert}
use stability_toys.Prelude.Effects.{ok}
use stability_toys.Prelude.Outcome.{returned, passed}
use stability_toys.Assets.Cleanup.{member}
use stability_toys.Analysis.Contracts.{
  invalid_request, target_binding_invalid, DescribeTarget, DescribeTask, is_only, chosen, all_kinds,
  is_empty, effective_role,
}
use stability_toys.Analysis.Parsing.{Declared, declare, check_known}
use stability_toys.Analysis.Validation.{
  validate_target, validate_targets, validate_task, validate_tasks, has_block,
}
use stability_toys.Analysis.Orchestrator.{
  RunPlan, primary_ids, plan_of, bound_ids, expand_tasks, by_id,
}

module _ {V : Type 0} where
  -- Every id is a key.
  abbrev pub AllKnown : Dict V → List String → Type 0
  AllKnown d [] = Unit
  AllKnown d (id ∷ ids) = (contains id d ≡ true) × AllKnown d ids

  contains-insert_other :
      (k j : String) (v : V) (d : Dict V) → contains j d ≡ true → contains j (insert k v d) ≡ true
  contains-insert_other k j v d h = ground (arith, lookup-insert k j v d)

  contains-insert_self : (k : String) (v : V) (d : Dict V) → contains k (insert k v d) ≡ true
  contains-insert_self k v d = ground (arith, lookup-insert k k v d)

  module _ (id : V → String) where
    by_id_keeps :
        (k : String) (d : Dict V) (vs : List V)
        → contains k d ≡ true
        → contains k (by_id id d vs) ≡ true
    unfolding by_id
    by_id_keeps k d [] h = h
    by_id_keeps k d (v ∷ vs) h =
        by_id_keeps k (insert (id v) v d) vs (contains-insert_other (id v) k v d h)

    pub by_id-AllKnown : (d : Dict V) (vs : List V) → AllKnown (by_id id d vs) (map id vs)
    unfolding by_id
    by_id-AllKnown d [] = tt
    by_id-AllKnown d (v ∷ vs) = (
      by_id_keeps (id v) (insert (id v) v d) vs (contains-insert_self (id v) v d),
      by_id-AllKnown (insert (id v) v d) vs,
    )

-- Every declared role belongs to a target.
pub roles_known :
    (d d' : Declared) (ts : List DescribeTarget) (acc : Dict DescribeTarget)
    → ((k : String) → contains k d.roles ≡ true → contains k acc ≡ true)
    → validate_targets d ts ≡ ok d'
    → (k : String) → contains k d'.roles ≡ true
    → contains k (by_id (λ t. t.id) acc ts) ≡ true
unfolding validate_targets by_id
roles_known d d' [] acc sub h k there = sub k (ground (arith, h, there))
roles_known d d' (t ∷ ts) acc sub h k there =
    let (_, _, after) = returned (validate_target d t) _ h in
    roles_known (declare t d) d' ts (insert t.id t acc)
      (λ j known.
        ground (
          arith,
          sub j,
          lookup-insert t.id j (effective_role t) d.roles,
          lookup-insert t.id j t acc,
        ))
      after k there

pub primary_counted :
    (d d' : Declared) (ts : List DescribeTarget)
    → validate_targets d ts ≡ ok d'
    → d'.primary_count ≡ d.primary_count + length (primary_ids ts)
unfolding validate_targets
primary_counted d d' [] h = ground arith
primary_counted d d' (t ∷ ts) h =
    let (_, _, after) = returned (validate_target d t) _ h in
    let rest = primary_counted (declare t d) d' ts after in ground arith

pub primary-AllKnown :
    (D : Dict DescribeTarget) (ts : List DescribeTarget)
    → AllKnown D (map (λ t. t.id) ts)
    → AllKnown D (primary_ids ts)
primary-AllKnown D [] h = tt
primary-AllKnown D (t ∷ ts) h = let rest = primary-AllKnown D ts h.1 in ground arith

checked-AllKnown :
    (roles : Dict String) (D : Dict DescribeTarget) (ids : List String)
    → ((k : String) → contains k roles ≡ true → contains k D ≡ true)
    → check_known roles ids ≡ ok tt
    → AllKnown D ids
unfolding check_known
checked-AllKnown roles D [] sub h = tt
checked-AllKnown roles D (id ∷ ids) sub h =
    let (here, after) =
      passed (not (contains id roles)) target_binding_invalid (check_known roles ids) h in
    (sub id (ground arith), checked-AllKnown roles D ids sub after)

-- A plan whose task and target are known.
abbrev pub IsBound : {F : Type 0} → Dict (DescribeTask F) → Dict DescribeTarget → RunPlan → Type 0
IsBound tasks targets plan =
    (contains plan.task_id tasks ≡ true) × (contains plan.target_id targets ≡ true)

abbrev pub AllBound :
    {F : Type 0} → Dict (DescribeTask F) → Dict DescribeTarget → List RunPlan → Type 0
AllBound tasks targets [] = Unit
AllBound tasks targets (p ∷ ps) = IsBound tasks targets p × AllBound tasks targets ps

module _ {F : Type 0} (tasks : Dict (DescribeTask F)) (targets : Dict DescribeTarget)
    (routes : Dict String) where
  AllBound-append :
      (ps qs : List RunPlan)
      → AllBound tasks targets ps
      → AllBound tasks targets qs
      → AllBound tasks targets (ps ++ qs)
  AllBound-append [] qs h k = k
  AllBound-append (p ∷ ps) qs h k = (h.0, AllBound-append ps qs h.1 k)

  plan_of-IsBound :
      (t : DescribeTask F) (id : String)
      → contains t.id tasks ≡ true
      → contains id targets ≡ true
      → IsBound tasks targets (plan_of routes t id)
  plan_of-IsBound t id h k = ground arith

  plans-AllBound :
      (t : DescribeTask F) (ids : List String)
      → contains t.id tasks ≡ true
      → AllKnown targets ids
      → AllBound tasks targets (map (plan_of routes t) ids)
  plans-AllBound t [] h k = tt
  plans-AllBound t (id ∷ ids) h k = (plan_of-IsBound t id h k.0, plans-AllBound t ids h k.1)

  module _ (d : Declared) (primary : List String)
      (sub : (k : String) → contains k d.roles ≡ true → contains k targets ≡ true)
      (known : AllKnown targets primary) where
    pub expand-AllBound :
        (seen : List String) (ts : List (DescribeTask F))
        → validate_tasks d seen ts ≡ ok tt
        → AllKnown tasks (map (λ t. t.id) ts)
        → AllBound tasks targets (expand_tasks primary routes ts)
    unfolding validate_tasks validate_task expand_tasks
    expand-AllBound seen [] h k = tt
    expand-AllBound seen (t ∷ ts) h k =
        let (_, here, after) = returned (validate_task d seen t) _ h in
        let (_, h1) = passed (is_empty t.id) invalid_request _ here in
        let (_, h2) = passed (member t.id seen) invalid_request _ h1 in
        let (_, h3) =
          passed (not (is_only t.kind (chosen (has_block t) all_kinds))) invalid_request _ h2 in
        let (_, ids, h4) = returned (check_known d.roles t.target_ids) _ h3 in
        let own = checked-AllKnown d.roles targets t.target_ids sub ids in
        let bound : AllKnown targets (bound_ids primary t) = ground arith in
        AllBound-append (map (plan_of routes t) (bound_ids primary t))
          (expand_tasks primary routes ts) (plans-AllBound t (bound_ids primary t) k.0 bound)
          (expand-AllBound (t.id ∷ seen) ts after k.1)
