-- ===== src/Props/Tests.antt =====
-- Tests of src/include/skivvy/props.h.
use skivvy.Base.{refl, ◌≡◌, List, [], ◌∷◌, codes}
use skivvy.Props.{
  new_properties, find, put_property, put_all, get_property, set_property, commit, rollback,
  value_or,
}
use skivvy.Props.Commit.{
  Op, sets, commits, rolls_back, step, run, changes, no_values, get_property-run,
}

abbrev ops : List Op
ops =
    sets (codes "a") (codes "1")
    ∷ commits
    ∷ sets (codes "a") (codes "2")
    ∷ rolls_back
    ∷ sets (codes "b") (codes "3")
    ∷ []

rolled_back_test : get_property (codes "a") (codes "-") (run new_properties ops) ≡ codes "1"
unfolding get_property find put_property put_all set_property commit rollback run step
rolled_back_test = refl

uncommitted_test :
    get_property (codes "b") (codes "-") (rollback (run new_properties ops)) ≡ codes "-"
unfolding get_property find put_property put_all set_property commit rollback run step
uncommitted_test = refl

get_property-run_example :
    let p = run new_properties ops in
    let q = changes no_values ops in
    (get_property (codes "b") (codes "-") p ≡ value_or (q.seen (codes "b")) (codes "-"))
    × (get_property (codes "b") (codes "-") (rollback p)
        ≡ value_or (q.kept (codes "b")) (codes "-"))
    × (get_property (codes "b") (codes "-") (commit p) ≡ get_property (codes "b") (codes "-") p)
get_property-run_example = get_property-run ops (codes "b") (codes "-")
