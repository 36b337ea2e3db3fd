-- ===== src/Tasks/Groups.antt =====
-- The groups of tasks divide the tasks.
use neural_vyuha_prime.Common.{
  ℕ, ◌+◌, ◌≤◌, String, Bool, true, false, ◌&&◌, List, [], ◌∷◌, ◌++◌, map, ◌==◌, ◌≡◌, refl, arith,
  eq_iff, eq_refl, length, filter, if◌then◌else◌, length-append, filter-append,
}
use neural_vyuha_prime.Uniq.{elem}
use neural_vyuha_prime.Tasks.{
  Task, TaskGroup, Scope, insert_by_order, sort_by_order, add_group, group_names, group_of,
  build_task_groups,
}

abbrev pub concat_tasks : List TaskGroup → List Task
concat_tasks [] = []
concat_tasks (g ∷ gs) = g.tasks ++ concat_tasks gs

abbrev pub occurrences : String → List String → ℕ
occurrences g gs = length (filter (λ h. g == h) gs)

-- How many tasks pass a test, over all the groups of these names.
abbrev grouped_count : (Task → Bool) → List Task → List String → ℕ
grouped_count p tasks gs = length (filter p (concat_tasks (map (group_of tasks) gs)))

-- No name occurs twice, and each group of the tasks occurs.
abbrev Covers : List String → List Task → Type 0
Covers gs [] = Unit
Covers gs (t ∷ ts) = (occurrences t.group gs ≡ 1) × Covers gs ts

grouped_count-nil : (p : Task → Bool) (gs : List String) → grouped_count p [] gs ≡ 0
grouped_count-nil p [] = refl
grouped_count-nil p (g ∷ gs) = grouped_count-nil p gs

filter-swap :
    (p : Task → Bool) (g : String) (t : Task) (ts : List Task)
    → length (filter p (group_of (t ∷ ts) g).tasks)
      ≡ (if p t && t.group == g then 1 else 0) + length (filter p (group_of ts g).tasks)
filter-swap p g t ts = ground arith

length-filter-append :
    (p : Task → Bool) (xs ys : List Task)
    → length (filter p (xs ++ ys)) ≡ length (filter p xs) + length (filter p ys)
length-filter-append p xs ys = rw filter-append (length-append (filter p xs) (filter p ys))

occurrences-cons :
    (g h : String) (gs : List String)
    → occurrences g (h ∷ gs) ≡ (if g == h then 1 else 0) + occurrences g gs
occurrences-cons g h gs = ground arith

grouped_count-cons :
    (p : Task → Bool) (t : Task) (ts : List Task) (gs : List String)
    → grouped_count p (t ∷ ts) gs
      ≡ (if p t then occurrences t.group gs else 0) + grouped_count p ts gs
grouped_count-cons p t ts [] = ground arith
grouped_count-cons p t ts (g ∷ gs) =
    let xs = (group_of (t ∷ ts) g).tasks in
    let ys = (group_of ts g).tasks in
    go (p t) (t.group == g) _ _ _ _ _ _ _ _
      (length-filter-append p xs (concat_tasks (map (group_of (t ∷ ts)) gs)))
      (length-filter-append p ys (concat_tasks (map (group_of ts) gs))) (filter-swap p g t ts)
      (grouped_count-cons p t ts gs) (occurrences-cons t.group g gs)
  where
    go :
        (b c : Bool) (now now' now'' before before' rest' occ occ' : ℕ)
        → now ≡ now' + now''
        → before ≡ before' + rest'
        → now' ≡ (if b && c then 1 else 0) + before'
        → now'' ≡ (if b then occ else 0) + rest'
        → occ' ≡ (if c then 1 else 0) + occ
        → now ≡ (if b then occ' else 0) + before
    go true true _ _ _ _ _ _ _ _ h i j k l = omega arith
    go true false _ _ _ _ _ _ _ _ h i j k l = omega arith
    go false c _ _ _ _ _ _ _ _ h i j k l = omega arith

-- With names that cover the tasks, every task is counted once.
count-Covers :
    (p : Task → Bool) (tasks : List Task) (gs : List String)
    → Covers gs tasks
    → grouped_count p tasks gs ≡ length (filter p tasks)
count-Covers p [] gs h = grouped_count-nil p gs
count-Covers p (t ∷ ts) gs (one, h) =
    ground (arith, grouped_count-cons p t ts gs, count-Covers p ts gs h)

-- `_.sortBy` keeps every task.
occurrences-append :
    (g : String) (xs ys : List String)
    → occurrences g (xs ++ ys) ≡ occurrences g xs + occurrences g ys
occurrences-append g xs ys = rw filter-append (length-append _ _)

elem-occurrences : (g : String) (gs : List String) → elem ◌==◌ g gs ≡ false → occurrences g gs ≡ 0
elem-occurrences g [] h = refl
elem-occurrences g (h ∷ gs) away = ground (arith, eq_iff g h, eq_iff h g, elem-occurrences g gs)

occurrences-elem : (g : String) (gs : List String) → elem ◌==◌ g gs ≡ true → 1 ≤ occurrences g gs
occurrences-elem g [] h = cc
occurrences-elem g (h ∷ gs) here = ground (arith, eq_iff g h, eq_iff h g, occurrences-elem g gs)

-- No name occurs twice.
abbrev pub IsDistinct : List String → Type 0
IsDistinct gs = (g : String) → occurrences g gs ≤ 1

add_group-IsDistinct : (gs : List String) (t : Task) → IsDistinct gs → IsDistinct (add_group gs t)
add_group-IsDistinct gs t h g = ground (
  arith,
  h g,
  elem-occurrences t.group gs,
  occurrences-append g gs (t.group ∷ []),
  eq_iff g t.group,
)

add_group-covers : (gs : List String) (t : Task) → 1 ≤ occurrences t.group (add_group gs t)
add_group-covers gs t = ground (
  arith,
  occurrences-elem t.group gs,
  occurrences-append t.group gs (t.group ∷ []),
  eq_refl t.group,
)

occurrences-add_group :
    (gs : List String) (t : Task) (g : String) → occurrences g gs ≤ occurrences g (add_group gs t)
occurrences-add_group gs t g = ground (arith, occurrences-append g gs (t.group ∷ []))

occurrences-group_names :
    (ts : List Task) (gs : List String) (g : String)
    → occurrences g gs ≤ occurrences g (group_names gs ts)
occurrences-group_names [] gs g = omega arith
occurrences-group_names (t ∷ ts) gs g =
    omega (arith, occurrences-add_group gs t g, occurrences-group_names ts (add_group gs t) g)

group_names-IsDistinct :
    (ts : List Task) (gs : List String) → IsDistinct gs → IsDistinct (group_names gs ts)
group_names-IsDistinct [] gs h = h
group_names-IsDistinct (t ∷ ts) gs h =
    group_names-IsDistinct ts (add_group gs t) (add_group-IsDistinct gs t h)

-- The group of each of the tasks occurs.
abbrev AllIn : List String → List Task → Type 0
AllIn gs [] = Unit
AllIn gs (t ∷ ts) = (1 ≤ occurrences t.group gs) × AllIn gs ts

AllIn-group_names : (ts : List Task) (gs : List String) → AllIn (group_names gs ts) ts
AllIn-group_names [] gs = tt
AllIn-group_names (t ∷ ts) gs = (
  omega (arith, add_group-covers gs t, occurrences-group_names ts (add_group gs t) t.group),
  AllIn-group_names ts (add_group gs t),
)

AllIn-insert :
    (gs : List String) (t : Task) (us : List Task)
    → AllIn gs (insert_by_order t us)
    → (1 ≤ occurrences t.group gs) × AllIn gs us
AllIn-insert gs t [] h = h
AllIn-insert gs t (u ∷ us) h = ground (arith, AllIn-insert gs t us)

AllIn-sort : (gs : List String) (ts : List Task) → AllIn gs (sort_by_order ts) → AllIn gs ts
AllIn-sort gs [] h = tt
AllIn-sort gs (t ∷ ts) h =
    let (here, rest) = AllIn-insert gs t (sort_by_order ts) h in (here, AllIn-sort gs ts rest)

Covers-AllIn : (gs : List String) (ts : List Task) → IsDistinct gs → AllIn gs ts → Covers gs ts
Covers-AllIn gs [] d h = tt
Covers-AllIn gs (t ∷ ts) d (here, h) = (omega (arith, d t.group), Covers-AllIn gs ts d h)

-- `buildTaskGroups` divides the tasks: no group is named twice, each group holds the tasks that
-- name it and no others, and all groups together hold each task exactly once, so that as many tasks
-- pass a test in the groups as in the list, whatever the test.
pub build_task_groups_lem :
    (tasks : List Task) (s : Scope)
    → let t = build_task_groups tasks s in
      IsDistinct t.groups
      × (t.grouped_tasks ≡ map (group_of tasks) t.groups)
      × ((p : Task → Bool)
          → length (filter p (concat_tasks t.grouped_tasks)) ≡ length (filter p tasks))
unfolding build_task_groups
build_task_groups_lem tasks s =
    let gs = group_names [] (sort_by_order tasks) in
    let distinct = group_names-IsDistinct (sort_by_order tasks) [] (λ g. omega arith) in
    (
      distinct,
      refl,
      λ p. count-Covers p tasks gs (
          Covers-AllIn gs tasks distinct
            (AllIn-sort gs tasks (AllIn-group_names (sort_by_order tasks) []))),
    )
