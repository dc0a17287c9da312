-- ===== src/LinkedList.antt =====
-- packages/vinyl-util/src/util/collection/LinkedList.ts: the doubly-linked list, with its nodes as
-- cells of a heap. A node is a number; `none` is `null`.
pub mod Nodes
pub mod Segment
pub mod Unlink
pub mod Append
pub mod Count
pub mod Walk
pub mod WalkBack
pub mod Ends
pub mod Prepend
pub mod Insert
use vinyl.Common.{
  ℕ, zero, suc, Bool, true, false, not, ◌&&◌, Option, none, some, List, [], ◌∷◌, ◌==◌,
  if◌then◌else◌,
}

-- The nodes that were created so far, and the list. Nodes from `count` on do not exist yet.
pub record State {ℓ} (T : Type ℓ) : Type ℓ where
  pub count : ℕ
  pub previous : ℕ → Option ℕ
  pub value : ℕ → Option T
  pub removed : ℕ → Bool
  pub next : ℕ → Option ℕ
  pub head : Option ℕ
  pub tail : Option ℕ

abbrev pub update {ℓ} : {A : Type ℓ} → (ℕ → A) → ℕ → A → ℕ → A
update f p v q = if p == q then v else f q

-- `pointer === node`, where the pointer may be null.
abbrev pub points_to : Option ℕ → ℕ → Bool
points_to none node = false
points_to (some p) node = p == node

abbrev pub is_null {ℓ} : {A : Type ℓ} → Option A → Bool
is_null none = true
is_null (some a) = false

-- A write through a pointer that may be null, which then is skipped.
abbrev pub write {ℓ} : {A : Type ℓ} → (ℕ → A) → Option ℕ → A → ℕ → A
write f none v = f
write f (some p) v = update f p v

module _ {ℓ} {T : Type ℓ} where
  -- A new list, when no node exists.
  abbrev pub new_list : State T
  new_list = record {
    count = 0;
    previous = λ n. none;
    value = λ n. none;
    removed = λ n. false;
    next = λ n. none;
    head = none;
    tail = none;
  }

  -- `if (pointer) pointer.next = v`, and the same for `previous`.
  abbrev pub set_next : Option ℕ → Option ℕ → State T → State T
  set_next pointer v s = record s { next = write s.next pointer v }

  abbrev pub set_previous : Option ℕ → Option ℕ → State T → State T
  set_previous pointer v s = record s { previous = write s.previous pointer v }

  abbrev pub set_removed : ℕ → Bool → State T → State T
  set_removed node b s = record s { removed = update s.removed node b }

  -- `if (this._head === node) this._head = v`, and the same for the tail.
  abbrev pub replace_head : ℕ → Option ℕ → State T → State T
  replace_head node v s = record s { head = if points_to s.head node then v else s.head }

  abbrev pub replace_tail : ℕ → Option ℕ → State T → State T
  replace_tail node v s = record s { tail = if points_to s.tail node then v else s.tail }

  -- The steps of `remove` on a node that is in the list.
  pub unlink : ℕ → State T → State T
  unlink node s =
      let s1 = set_removed node true s in
      let s2 = set_next (s1.previous node) (s1.next node) s1 in
      let s3 = set_previous (s2.next node) (s2.previous node) s2 in
      let s4 = replace_head node (s3.next node) s3 in replace_tail node (s4.previous node) s4

  unfoldable pub remove : ℕ → State T → State T
  unfolding unlink
  remove node s = if s.removed node then s else unlink node s

  -- `pushNode` after the removal.
  pub append_node : ℕ → State T → State T
  append_node node s =
      let s1 = set_removed node false s in
      let s2 = set_next (some node) none s1 in
      let s3 = set_previous (some node) s2.tail s2 in
      let s4 = set_next s3.tail (some node) s3 in
      let s5 = record s4 { tail = some node } in
      record s5 { head = if is_null s5.head then some node else s5.head }

  unfoldable pub push_node : ℕ → State T → State T
  unfolding append_node remove
  push_node node s = if points_to s.tail node then s else append_node node (remove node s)

  -- A new node with the given fields.
  abbrev pub create : Option ℕ → T → Bool → Option ℕ → State T → State T
  create previous value removed next s =
      let node = s.count in
      record s {
        count = suc node;
        previous = update s.previous node previous;
        value = update s.value node (some value);
        removed = update s.removed node removed;
        next = update s.next node next;
      }

  -- `push`: the new node is the old `count`.
  unfoldable pub push : T → State T → State T
  unfolding push_node
  push value s = push_node s.count (create s.tail value false none s)

  unfoldable pub push_all : List T → State T → State T
  unfolding push
  push_all [] s = s
  push_all (v ∷ vs) s = push_all vs (push v s)

  -- What `pop` and `shift` do with the node at their end.
  abbrev pub remove_pointed : Option ℕ → State T → State T × Option ℕ
  remove_pointed none s = (s, none)
  remove_pointed (some node) s = (remove node s, some node)

  unfoldable pub pop : State T → State T × Option ℕ
  pop s = remove_pointed s.tail s

  -- `unshiftNode` after the removal.
  pub prepend_node : ℕ → State T → State T
  prepend_node node s =
      let s1 = set_removed node false s in
      let s2 = set_previous (some node) none s1 in
      let s3 = set_next (some node) s2.head s2 in
      let s4 = set_previous s3.head (some node) s3 in
      let s5 = record s4 { head = some node } in
      record s5 { tail = if is_null s5.tail then some node else s5.tail }

  unfoldable pub unshift_node : ℕ → State T → State T
  unfolding prepend_node remove
  unshift_node node s = if points_to s.head node then s else prepend_node node (remove node s)

  unfoldable pub unshift : T → State T → State T
  unfolding unshift_node
  unshift value s = unshift_node s.count (create none value true s.head s)

  -- The values are prepended from the last to the first.
  unfoldable pub unshift_all : List T → State T → State T
  unfolding unshift
  unshift_all [] s = s
  unshift_all (v ∷ vs) s = unshift v (unshift_all vs s)

  unfoldable pub shift : State T → State T × Option ℕ
  shift s = remove_pointed s.head s

  -- `insertNodeBefore` after the removal.
  pub link_before : ℕ → ℕ → State T → State T
  link_before node pointer s =
      let s1 = set_removed node false s in
      let s2 : State T = elim (s1.previous pointer) [
        | some p ↦ set_previous (some node) (s1.previous pointer) (set_next (some p) (some node) s1)
        | none ↦ set_previous (some node) none (record s1 { head = some node })
      ] in
      set_previous (some pointer) (some node) (set_next (some node) (some pointer) s2)

  unfoldable pub insert_node_before : ℕ → ℕ → State T → State T
  unfolding link_before remove
  insert_node_before node pointer s =
      if not (s.removed node) && points_to (s.next node) pointer
      then s
      else link_before node pointer (remove node s)

  -- `insertNodeAfter` after the removal.
  pub link_after : ℕ → ℕ → State T → State T
  link_after node pointer s =
      let s1 = set_removed node false s in
      let s2 : State T = elim (s1.next pointer) [
        | some q ↦ set_next (some node) (s1.next pointer) (set_previous (some q) (some node) s1)
        | none ↦ set_next (some node) none (record s1 { tail = some node })
      ] in
      set_next (some pointer) (some node) (set_previous (some node) (some pointer) s2)

  unfoldable pub insert_node_after : ℕ → ℕ → State T → State T
  unfolding link_after remove
  insert_node_after node pointer s =
      if not (s.removed node) && points_to (s.previous node) pointer
      then s
      else link_after node pointer (remove node s)

  -- The values that `forEach` hands to its callback, which leaves the list alone.
  pub for_each_from : ℕ → Option ℕ → State T → List T
  for_each_from zero current s = []
  for_each_from (suc fuel) none s = []
  for_each_from (suc fuel) (some node) s =
      let rest = for_each_from fuel (s.next node) s in
      if s.removed node then rest else elim (s.value node) [ none ↦ rest | some v ↦ v ∷ rest ]

  unfoldable pub for_each : State T → List T
  unfolding for_each_from
  for_each s = for_each_from (suc s.count) s.head s

  -- The loops of `find` and `findLast`, which go along `next` and `previous`.
  pub find_from : ℕ → (ℕ → Option ℕ) → (T → Bool) → Option ℕ → State T → Option ℕ
  find_from zero step predicate current s = none
  find_from (suc fuel) step predicate none s = none
  find_from (suc fuel) step predicate (some node) s =
      let rest = find_from fuel step predicate (step node) s in
      elim (s.value node) [
        | none ↦ rest
        | some v ↦ if not (s.removed node) && predicate v then some node else rest
      ]

  unfoldable pub find : (T → Bool) → State T → Option ℕ
  unfolding find_from
  find predicate s = find_from (suc s.count) s.next predicate s.head s

  unfoldable pub find_last : (T → Bool) → State T → Option ℕ
  unfolding find_from
  find_last predicate s = find_from (suc s.count) s.previous predicate s.tail s

  -- The loop of `some`.
  pub some_from : ℕ → (T → Bool) → Option ℕ → State T → Bool
  some_from zero predicate current s = false
  some_from (suc fuel) predicate none s = false
  some_from (suc fuel) predicate (some node) s =
      let rest = some_from fuel predicate (s.next node) s in
      elim (s.value node) [
        | none ↦ rest
        | some v ↦ if not (s.removed node) && predicate v then true else rest
      ]

  unfoldable pub some_element : (T → Bool) → State T → Bool
  unfolding some_from
  some_element predicate s = some_from (suc s.count) predicate s.head s

  -- The loop of `clear`, which marks the nodes.
  pub mark_removed : ℕ → Option ℕ → State T → State T
  mark_removed zero current s = s
  mark_removed (suc fuel) none s = s
  mark_removed (suc fuel) (some node) s = mark_removed fuel (s.next node) (set_removed node true s)

  unfoldable pub clear : State T → State T
  unfolding mark_removed
  clear s = record (mark_removed (suc s.count) s.head s) { head = none; tail = none }
