-- ===== src/Executor/Order.antt =====
-- The order in which a buffer of plans is run.
use isep_mutation_levels.Prelude.{
  ◌≡◌, refl, ap, ◌∙◌, Bool, true, false, not, List, [], ◌∷◌, ◌++◌, keep, arith, Bool-cases, inl,
  inr,
}
use isep_mutation_levels.Executor.Execute.{RunPlan, insert_plan, sort_reload_last}

abbrev pub reloads : RunPlan → Bool
reloads r = r.1.reload_environment

abbrev pub keeps_environment : RunPlan → Bool
keeps_environment r = not r.1.reload_environment

insert_early : (r : RunPlan) (rs : List RunPlan) → reloads r ≡ false → insert_plan r rs ≡ r ∷ rs
insert_early r [] h = refl
insert_early r (q ∷ qs) h = rw h

insert_last :
    (r : RunPlan) (rs : List RunPlan)
    → reloads r ≡ true
    → insert_plan r (keep reloads rs) ≡ r ∷ keep reloads rs
insert_last r [] h = refl
insert_last r (q ∷ qs) h = ground (arith, h, insert_last r qs h)

insert_behind :
    (r : RunPlan) (qs rs : List RunPlan)
    → reloads r ≡ true
    → insert_plan r (keep keeps_environment qs ++ keep reloads rs)
      ≡ keep keeps_environment qs ++ r ∷ keep reloads rs
insert_behind r [] rs h = insert_last r rs h
insert_behind r (q ∷ qs) rs h = ground (arith, h, insert_behind r qs rs h)

-- A buffer runs first the plans that keep the environment and then those that reload it, each in
-- the order in which they came.
pub sort_reload_last-order :
    (rs : List RunPlan) → sort_reload_last rs ≡ keep keeps_environment rs ++ keep reloads rs
unfolding sort_reload_last
sort_reload_last-order [] = refl
sort_reload_last-order (r ∷ rs) =
    ap (insert_plan r) (sort_reload_last-order rs) ∙ elim (Bool-cases (reloads r)) [
      | inl e ↦ insert_behind r rs rs e ∙ ground (arith, e)
      | inr e ↦ insert_early r (keep keeps_environment rs ++ keep reloads rs) e ∙ ground (arith, e)
    ]
