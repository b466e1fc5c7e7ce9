-- ===== src/Contract/Valid.antt =====
-- What `load_contract` returns, and what it throws.
use rosetta_recorder_cpp.Floats.{Floats}
use rosetta_recorder_cpp.Prelude.{
  ℕ, ◌<◌, ◌≡◌, refl, is_non_positive, Text, codes, is_empty, Bool, true, false, not, ◌&&◌, ◌||◌,
  List, [], ok, throw, Post, Post-ok, Post-throw, Post-bind, Post-tt, Post-throw_if, Post-eq,
  Post-eq-ok, Post-eq-throw, Bool-cases, inl, inr, All, arith, ◌⊎◌,
}
use rosetta_recorder_cpp.Contract.{
  RecordTopic, Contract, RmwPolicies, ContractError, Failure, invalid,
}
use rosetta_recorder_cpp.Contract.Yaml.{Yaml, YamlLaws, Loaded, loaded, bad_file, bad_yaml}
use rosetta_recorder_cpp.Contract.Scalars.{at}
use rosetta_recorder_cpp.Contract.Sections.{
  collect_observation_like, collect_actions, collect_tasks,
}
use rosetta_recorder_cpp.Contract.Load.{
  read_robot_type, read_fps, read_max_duration, storage_of, read_storage, collect_adjunct,
  observations, read_topics, read_contract, load_contract,
}
use rosetta_recorder_cpp.Contract.Sound.{
  IsSound, Reads, MapsRead, push_each-Post, observation_item-Post, action_item-Post, task_item-Post,
  parse_adjunct-Post, collect-Post,
}

-- A contract that the recorder can use.
pub record IsValid {Double : Type 0} (c : Contract Double) : Type 0 where
  pub robot : is_empty c.robot_type ≡ false
  pub rate : is_non_positive c.fps ≡ false
  pub sound : All IsSound c.topics

module _ (F : Floats) (Y : Yaml F.Double) (rmw : RmwPolicies) (X : Failure → Type 0)
    (own : (c : ContractError) → X (invalid c)) (maps : MapsRead Y rmw X own) where
  observations-Post :
      (root : Y.Node) (section : Text) (out : List RecordTopic)
      → Reads Y rmw X own root
      → All IsSound out
      → Post (All IsSound) X (observations F Y rmw root section out)
  unfolding observations collect_observation_like
  observations-Post root section out reads done = Post-bind (reads _) λ list _.
      collect-Post Y rmw X own _ list out
        (λ i _. observation_item-Post Y rmw X own section list i maps) done

  actions-Post :
      (list : Y.Node) (out : List RecordTopic)
      → All IsSound out
      → Post (All IsSound) X (collect_actions Y rmw list out)
  unfolding collect_actions
  actions-Post list out done =
      collect-Post Y rmw X own _ list out (λ i _. action_item-Post Y rmw X own list i maps) done

  -- Every element of `list` can be read.
  abbrev pub ItemsRead : Y.Node → Type 0
  ItemsRead list = (i : ℕ) → i < Y.size list → Reads Y rmw X own (Y.elem_at list i)

  tasks-Post :
      (list : Y.Node) (out : List RecordTopic)
      → ItemsRead list
      → All IsSound out
      → Post (All IsSound) X (collect_tasks Y rmw list out)
  unfolding collect_tasks
  tasks-Post list out items done =
      collect-Post Y rmw X own _ list out
        (λ i lt. task_item-Post Y rmw X own list i maps (items i lt)) done

  adjunct-Post :
      (adj : Y.Node) (out : List RecordTopic)
      → All IsSound out
      → Post (All IsSound) X (collect_adjunct F Y rmw adj out)
  unfolding collect_adjunct
  adjunct-Post adj out done = elim (Bool-cases (Y.is_defined adj && not (Y.is_null adj))) [
    | inr e ↦ rw e (Post-ok _ done)
    | inl e ↦ elim (Bool-cases (Y.is_sequence adj)) [
      | inl s ↦
          rw (e, s)
            (push_each-Post X IsSound _ (Y.size adj) 0 out
              (λ k _. parse_adjunct-Post Y rmw X own (Y.elem_at adj k) k maps) done)
      | inr s ↦
          rw (e, s)
            (push_each-Post X IsSound _ 1 0 out (λ k _. parse_adjunct-Post Y rmw X own adj k maps)
              done)
    ]
  ]

  -- The tasks of a root, wherever they are found.
  abbrev pub TasksRead : Y.Node → Type 0
  TasksRead root = (list : Y.Node) → at Y root (codes "tasks") ≡ ok list → ItemsRead list

  read_topics-Post :
      (root : Y.Node)
      → Reads Y rmw X own root
      → TasksRead root
      → Post (All IsSound) X (read_topics F Y rmw root)
  unfolding read_topics
  read_topics-Post root reads tasks = Post-bind (observations-Post root _ [] reads tt) λ out done.
      Post-bind (reads _) λ actions _. Post-bind (actions-Post actions out done) λ out done.
        Post-bind (observations-Post root _ out reads done) λ out done.
          Post-bind (observations-Post root _ out reads done) λ out done.
            Post-bind (observations-Post root _ out reads done) λ out done.
              Post-bind (observations-Post root _ out reads done) λ out done.
                Post-bind (Post-eq (reads (codes "tasks"))) λ list found.
                  Post-bind (tasks-Post list out (tasks list found) done)
                    λ out done. Post-bind (reads _) λ adj _. adjunct-Post adj out done

  read_robot_type-Post :
      (root : Y.Node)
      → YamlLaws Y
      → Reads Y rmw X own root
      → Post (λ s. is_empty s ≡ false) X (read_robot_type F Y rmw root)
  unfolding read_robot_type
  read_robot_type-Post root laws reads = Post-bind (reads _) λ m _. Post-throw_if _ _ _ (own _) λ e.
      let some_text = or_false (not (Y.is_defined m)) _ e in
      rw (laws.string_agrees m (λ z. ground (arith, some_text, z))) (Post-ok _ some_text)
    where
      or_false : (a b : Bool) → a || b ≡ false → b ≡ false
      or_false a b h = ground arith

  read_fps-Post :
      (root : Y.Node)
      → Reads Y rmw X own root
      → Post (λ n. is_non_positive n ≡ false) X (read_fps F Y rmw root)
  unfolding read_fps
  read_fps-Post root reads = Post-bind (reads _) λ m _. Post-throw_if _ _ _ (own _) λ e. Post-ok _ e

  read_max_duration-Post :
      (root : Y.Node)
      → Reads Y rmw X own root
      → Post (λ _. Unit {0}) X (read_max_duration F Y rmw root)
  unfolding read_max_duration
  read_max_duration-Post root reads = Post-bind (reads _) λ m _. Post-ok _ tt

  read_storage-Post :
      (root : Y.Node) → Reads Y rmw X own root → Post (λ _. Unit {0}) X (read_storage F Y rmw root)
  unfolding read_storage storage_of
  read_storage-Post root reads = Post-bind (reads _) λ m _.
      elim (Bool-cases (Y.is_defined m && Y.is_map m)) [
        | inl e ↦ rw e (Post-bind (maps m (ground (arith, e)) _) λ s _. Post-ok _ tt)
        | inr e ↦ rw e (Post-ok _ tt)
      ]

  read_contract-Post :
      (root : Y.Node) → YamlLaws Y → TasksRead root → Post IsValid X (read_contract F Y rmw root)
  unfolding read_contract
  read_contract-Post root laws tasks = Post-throw_if _ _ _ (own _) λ e.
      let reads = maps root (ground (arith, e)) in
      Post-bind (read_robot_type-Post root laws reads) λ robot_type robot.
        Post-bind (read_fps-Post root reads) λ fps rate.
          Post-bind (read_max_duration-Post root reads) λ max_duration_s _.
            Post-bind (read_storage-Post root reads) λ storage _.
              Post-bind (read_topics-Post root reads tasks)
                λ topics sound. Post-ok _ (record { robot = robot; rate = rate; sound = sound })

  load_contract-Post :
      (path : Text)
      → YamlLaws Y
      → ((root : Y.Node) → Y.load_file path ≡ loaded root → TasksRead root)
      → Post IsValid X (load_contract F Y rmw path)
  unfolding load_contract
  load_contract-Post path laws tasks = elim (Loaded-cases (Y.load_file path)) [
    | inl (inl e) ↦ rw (e, load_contract) (Post-throw _ (own _))
    | inl (inr (reason, e)) ↦ rw (e, load_contract) (Post-throw _ (own _))
    | inr (root, e) ↦ rw (e, load_contract) (read_contract-Post root laws (tasks root e))
  ]
    where
      Loaded-cases :
          (l : Loaded Y.Node)
          → ((l ≡ bad_file) ⊎ ((reason : Text) × (l ≡ bad_yaml reason)))
            ⊎ ((root : Y.Node) × (l ≡ loaded root))
      Loaded-cases (loaded root) = inr (root, refl)
      Loaded-cases bad_file = inl (inl refl)
      Loaded-cases (bad_yaml reason) = inl (inr (reason, refl))

-- The recorder's own error.
abbrev pub IsInvalid : Failure → Type 0
IsInvalid f = (c : ContractError) × (f ≡ invalid c)

at-IsInvalid :
    {Double : Type 0} (Y : Yaml Double) (laws : YamlLaws Y) (n : Y.Node) (key : Text)
    → Y.is_map n ≡ true
    → Post (λ _. Unit {0}) IsInvalid (at Y n key)
unfolding at
at-IsInvalid Y laws n key e = rw ((laws.map_member n key e).1, at) (Post-ok _ tt)

module _ (F : Floats) (Y : Yaml F.Double) (rmw : RmwPolicies) (laws : YamlLaws Y) where
  -- Every contract that loads is usable: it names a robot, its rate is positive, and each topic has
  -- a name, a type, a queue depth of at least one, no publisher-only policies, and a buffering
  -- strategy only if it is latched.
  pub load_contract-IsValid :
      (path : Text) {c : Contract F.Double} → load_contract F Y rmw path ≡ ok c → IsValid c
  load_contract-IsValid path loads =
      Post-eq-ok
        (load_contract-Post F Y rmw (λ _. Unit {0}) (λ _. tt) (λ n _ key. Post-tt _ (λ _. tt)) path
          laws (λ root _ list _ i _ key. Post-tt _ (λ _. tt)))
        loads

  -- Whenever every entry under `tasks` is a mapping, a refused contract is refused by a
  -- `ContractValidationError`: no exception of the YAML library leaves the loader.
  pub load_contract-IsInvalid :
      (path : Text) {e : Failure}
      → ((root list : Y.Node)
          → Y.load_file path ≡ loaded root
          → at Y root (codes "tasks") ≡ ok list
          → (i : ℕ) → i < Y.size list
          → Y.is_map (Y.elem_at list i) ≡ true)
      → load_contract F Y rmw path ≡ throw e
      → IsInvalid e
  load_contract-IsInvalid path {e} tasks fails =
      Post-eq-throw
        (load_contract-Post F Y rmw IsInvalid own maps path laws
          (λ root found list section i lt. maps _ (tasks root list found section i lt)))
        fails
    where
      own : (c : ContractError) → IsInvalid (invalid c)
      own c = (c, refl)

      maps :
          (n : Y.Node)
          → Y.is_map n ≡ true
          → (key : Text) → Post (λ _. Unit {0}) IsInvalid (at Y n key)
      maps n e key = at-IsInvalid Y laws n key e
