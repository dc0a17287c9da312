-- ===== src/Tests/LinkedList.antt =====
-- Runs of the linked list: cases of packages/vinyl-util/test/unit/util/collection, and each theorem
-- at a list that holds three nodes.
use vinyl.Common.{ℕ, ◌≡◌, ◌∷◌, [], true, false, some, refl, ltb, arith}
use vinyl.LinkedList.{
  State, new_list, push_all, push_node, remove, insert_node_before, insert_node_after, for_each,
  find_last, some_element,
}
use vinyl.LinkedList.Segment.{Holds}
use vinyl.LinkedList.Unlink.{remove-Holds}
use vinyl.LinkedList.Append.{push_node-Holds}
use vinyl.LinkedList.Insert.Before.{insert_node_before-Holds}
use vinyl.LinkedList.WalkBack.{last_with, find_last-last_with}

abbrev three : State ℕ
unfolding push_all
three = push_all (10 ∷ 20 ∷ 30 ∷ []) new_list

three-Holds : Holds three (0 ∷ 1 ∷ 2 ∷ [])
unfolding push_all
three-Holds = record {
  linked = (refl, refl, refl, (refl, refl, refl, (refl, refl, refl, tt)));
  head = refl;
  tail = refl;
  distinct = ground arith;
  known = omega arith;
}

for_each_runs : for_each three ≡ 10 ∷ 20 ∷ 30 ∷ []
unfolding for_each push_all
for_each_runs = refl

insert_after_runs : for_each (insert_node_after 0 1 three) ≡ 20 ∷ 10 ∷ 30 ∷ []
unfolding insert_node_after for_each push_all
insert_after_runs = refl

insert_before_runs : for_each (insert_node_before 2 1 three) ≡ 10 ∷ 30 ∷ 20 ∷ []
unfolding insert_node_before for_each push_all
insert_before_runs = refl

find_last_runs : find_last (λ v. ltb v 25) three ≡ some 1
unfolding find_last push_all
find_last_runs = refl

some_runs : some_element (λ v. ltb 30 v) three ≡ false
unfolding some_element push_all
some_runs = refl

remove-Holds_example : Holds (remove 1 three) (0 ∷ 2 ∷ []) × ((remove 1 three).removed 1 ≡ true)
remove-Holds_example = remove-Holds 1 (0 ∷ []) (2 ∷ []) three three-Holds

push_node-Holds_example : Holds (push_node 0 three) (1 ∷ 2 ∷ 0 ∷ [])
push_node-Holds_example = push_node-Holds 0 [] (1 ∷ 2 ∷ []) three three-Holds

insert_node_before-Holds_example : Holds (insert_node_before 2 1 three) (0 ∷ 2 ∷ 1 ∷ [])
insert_node_before-Holds_example =
    insert_node_before-Holds 2 1 (0 ∷ 1 ∷ []) [] (0 ∷ []) [] three three-Holds refl

find_last-last_with_example :
    find_last (λ v. ltb v 25) three ≡ last_with three.value (λ v. ltb v 25) (0 ∷ 1 ∷ 2 ∷ [])
find_last-last_with_example = find_last-last_with (λ v. ltb v 25) three (0 ∷ 1 ∷ 2 ∷ []) three-Holds
