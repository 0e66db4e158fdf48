-- ===== src/Examples/Trees.antt =====
-- An example of the tree of suites.
use api_testoria.Base.{ℕ, ◌-◌, ◌≡◌, inr, refl, true, none, some, [], codes, ◌∷◌, arith, elem, All}
use api_testoria.Db.{Db, TestSuite}
use api_testoria.Runs.{get_project}
use api_testoria.Suites.{
  TestSuiteCreate, TestSuiteUpdate, get_suite, create_suite, update_suite, delete_suite,
  restore_suite, descendant_suite_ids, levels, root_ids,
}
use api_testoria.Suites.Forest.{IsForest}
use api_testoria.Suites.Reachable.{create, change, delete, stop, next, Steps-IsForest}
use api_testoria.Suites.Descent.{IsRanked}
use api_testoria.Suites.Cascade.{delete_suite-cascade}
use api_testoria.Examples.{shop, a_suite, table, after}

abbrev child_suite : TestSuite
child_suite = record a_suite { id = 2; parent_suite_id = some 1 }

abbrev tree : Db
tree = record shop { suites = table (a_suite ∷ child_suite ∷ []) 3 }

-- the depths of the two suites
abbrev depth : ℕ → ℕ
depth id = id - 1

forest : All (IsRanked depth 2) tree.suites.rows
forest = (inr (omega arith, tt), (inr (omega arith, omega arith), tt))

abbrev without_tree : Db
unfolding delete_suite get_suite descendant_suite_ids
without_tree = after (delete_suite 1 tree)

delete_suite-cascade_example : elem 1 (descendant_suite_ids 1 tree.suites.rows) ≡ true
unfolding delete_suite get_suite descendant_suite_ids
delete_suite-cascade_example = (delete_suite-cascade depth 1 tree without_tree forest refl).0

tree-IsForest : IsForest tree.suites
tree-IsForest = ((omega arith, (omega arith, tt)), (tt, (refl, tt)), (depth, forest))

-- a third suite below the second
abbrev third : TestSuiteCreate
third = record {
  name = codes "coupons";
  description = none;
  parent_suite_id = some 2;
  display_order = none;
}

abbrev below : ℕ → TestSuiteUpdate
below id = record {
  name = none;
  description = none;
  parent_suite_id = some (some id);
  display_order = none;
}

abbrev grown : Db
unfolding create_suite get_project get_suite
grown = after (create_suite 1 third tree)

abbrev third_suite : TestSuite
third_suite = record a_suite {
  id = 3;
  name = codes "coupons";
  parent_suite_id = some 2;
  created_at = 1000;
}

-- the third suite, moved below the first, with the second deleted after that
abbrev moved : Db
unfolding create_suite update_suite get_project get_suite descendant_suite_ids
moved = after (update_suite 3 (below 1) grown)

abbrev pruned : Db
unfolding create_suite update_suite delete_suite get_project get_suite descendant_suite_ids
pruned = after (delete_suite 2 moved)

Steps-IsForest_example : IsForest pruned.suites
unfolding create_suite update_suite delete_suite get_project get_suite descendant_suite_ids
Steps-IsForest_example = Steps-IsForest tree pruned tree-IsForest (
    next {mid = grown} (create 1 third {s = third_suite} refl) (
      next {mid = moved}
        (change 3 (below 1) {s = record third_suite { parent_suite_id = some 1 }} refl)
        (next (delete 2 refl) stop)))

-- A restoration is no such step: the second suite and the third, below it, are deleted, the third is
-- restored, the first is moved below the third, and the second is restored.
abbrev looped : Db
unfolding create_suite update_suite delete_suite restore_suite get_project get_suite
    descendant_suite_ids
looped =
    let apart = after (restore_suite 3 (after (delete_suite 2 grown))) in
    after (restore_suite 2 (after (update_suite 1 (below 3) apart)))

-- Then the recursive query comes back to the suite that it starts from.
looped_levels : levels 4 looped.suites.rows (root_ids 1 looped.suites.rows) ≡ 1 ∷ 2 ∷ 3 ∷ 1 ∷ []
unfolding create_suite update_suite delete_suite restore_suite get_project get_suite
    descendant_suite_ids
looped_levels = refl
