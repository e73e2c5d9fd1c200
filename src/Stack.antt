-- ===== src/Stack.antt =====
-- The Stack of client/stack.go: the resources an action runs over, sorted and grouped by priority.
-- A resource is a pointer (`id`) with what its methods answer; nil is `none`. Priorities are natural
-- numbers: the constants of client/resource.go, or what a configuration sets. `Run` itself is a
-- relation, in Stack/Running, since the batches run on the pool of client/pool.go.
pub mod Sorting
pub mod Batches
pub mod Seen
pub mod Running
mod Tests
use incus_compose.Prelude.{
  ℕ, Bool, true, false, not, ◌&&◌, Option, none, some, String, List, [], ◌∷◌, ◌++◌, ltb, ◌==◌,
  str_eq, if◌then◌else◌,
}
use incus_compose.Prelude.Dict.{Dict, lookup}

pub data Action : Type 0 where
  ensure : Action
  delete : Action
  start : Action
  stop : Action
  pause : Action
  unpause : Action
  backup : Action
  restore : Action

pub record Resource : Type 0 where
  pub id : ℕ
  pub priority : ℕ
  pub ignored : Bool
  pub supports : Action → Bool

pub record Options : Type 0 where
  pub workers : ℕ
  pub sort_descending : Bool
  pub fail_fast : Bool

pub record Stack : Type 0 where
  pub options : Options
  pub resources : List Resource
  pub seen : List ℕ

abbrev pub elem : ℕ → List ℕ → Bool
elem i [] = false
elem i (j ∷ js) = if i == j then true else elem i js

-- A new stack with the options as they are once every StackOption has been applied.
abbrev pub empty : Options → Stack
empty options = record { options = options; resources = []; seen = [] }

pub add_one : Resource → Stack → Stack
add_one r s =
    if elem r.id s.seen
    then s
    else record s { seen = r.id ∷ s.seen; resources = s.resources ++ r ∷ [] }

pub add : List (Option Resource) → Stack → Stack
add [] s = s
add (none ∷ rs) s = add rs s
add (some r ∷ rs) s = add rs (add_one r s)

pub add_ordered : List String → Dict (List (Option Resource)) → Stack → Stack
add_ordered [] resources s = s
add_ordered (k ∷ order) resources s =
    add_ordered order resources (elim (lookup k resources) [ none ↦ s | some res ↦ add res s ])

-- The order of the priorities, strictly.
abbrev pub ahead : Bool → ℕ → ℕ → Bool
ahead true p q = ltb q p
ahead false p q = ltb p q

-- `less` of the sort.
abbrev pub before : Bool → Resource → Resource → Bool
before desc a b = ahead desc a.priority b.priority

-- sort.SliceStable, as the insertion sort that puts each element ahead of the later ones, but for
-- those less than it: a stable sort has one result.
pub insert : Bool → Resource → List Resource → List Resource
insert desc r [] = r ∷ []
insert desc r (x ∷ xs) =
    let rest = insert desc r xs in if before desc x r then x ∷ rest else r ∷ x ∷ xs

pub sorted : Bool → List Resource → List Resource
sorted desc [] = []
sorted desc (r ∷ rs) = insert desc r (sorted desc rs)

pub sort : Stack → Stack
sort s = record s { resources = sorted s.options.sort_descending s.resources }

-- The batch being filled joins the others, if it holds anything.
abbrev pub flush : List (List Resource) → List Resource → List (List Resource)
flush batches [] = batches
flush batches (b ∷ batch) = batches ++ (b ∷ batch) ∷ []

-- The loop of groupByPriority: the batches so far, the one being filled and its priority.
pub group_from : List (List Resource) → List Resource → ℕ → List Resource → List (List Resource)
group_from batches batch current [] = flush batches batch
group_from batches batch current (r ∷ rs) =
    let same = group_from batches (batch ++ r ∷ []) current rs in
    let next = group_from (batches ++ batch ∷ []) (r ∷ []) r.priority rs in
    if r.priority == current then same else next

abbrev pub group : List Resource → List (List Resource)
group [] = []
group (r ∷ rs) = group_from [] [] r.priority (r ∷ rs)

pub group_by_priority : Stack → List (List Resource)
group_by_priority s = group s.resources

-- The tasks that runBatch submits to its pool.
pub submitted : List Resource → List Resource
submitted [] = []
submitted (r ∷ rs) = if r.ignored then submitted rs else r ∷ submitted rs

pub selected : (Resource → Bool) → Action → List Resource → List (Option Resource)
selected filter action [] = []
selected filter action (r ∷ rs) =
    let rest = selected filter action rs in
    if r.ignored then rest else if r.supports action && filter r then some r ∷ rest else rest

pub for_action : Action → Stack → Stack
for_action action s = add (selected (λ _. true) action s.resources) (empty s.options)

-- A nil filter lets everything through.
pub for_action_f : Action → Option (Resource → Bool) → Stack → Stack
for_action_f action none s = add (selected (λ _. true) action s.resources) (empty s.options)
for_action_f action (some filter) s = add (selected filter action s.resources) (empty s.options)
