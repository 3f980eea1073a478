-- ===== src/Container/Lifecycle/Created.antt =====
-- Create: which container it takes.
use engine_ci.Base.{String, true, false, none, some, List, ◌==◌, ◌≡◌, arith}
use engine_ci.Cri.Manager.{ok, Listed, ContainerConfig}
use engine_ci.Container.Action.{Outside, State, returned}
use engine_ci.Container.Lifecycle.{create, create_new, described, describe, find_named, slice_front}

-- What Create leaves once it has taken a container that the runtime describes by `info`.
abbrev pub taken :
    {W : Type 0} → String → ContainerConfig → ContainerConfig → String → W → State W → State W
taken id opts info short_id w s = record s {
  container = described info short_id (record s.container { opts = opts; id = id });
  runtime = w;
}

module _ {W : Type 0} (o : Outside W) where
  -- Create with the name of a container that is listed takes over the first such container, whatever its
  -- image and its settings; it creates nothing.
  pub create-adopts :
      (opts info : ContainerConfig) (s : State W) (containers : List Listed) (l : Listed) (w w' : W)
      (short_id : String)
      → opts.name == "" ≡ false
      → o.manager.container_list true s.runtime ≡ (ok containers, w)
      → find_named opts.name containers ≡ some l
      → o.manager.inspect_container l.id w ≡ (ok info, w')
      → slice_front 6 l.id ≡ some short_id
      → create o opts s ≡ (returned tt, taken l.id opts info short_id w' s)
  unfolding create describe
  create-adopts opts info s containers l w w' short_id named listed found inspected short =
      ground arith

  -- Create takes no notice of the containers that are listed unless one of them has the name.
  pub create-new :
      (opts : ContainerConfig) (s : State W) (containers : List Listed) (w : W)
      → opts.name == "" ≡ false
      → o.manager.container_list true s.runtime ≡ (ok containers, w)
      → find_named opts.name containers ≡ none
      → create o opts s
        ≡ create_new o opts
            (record s { container = record s.container { opts = opts }; runtime = w })
  unfolding create
  create-new opts s containers w named listed missing = ground arith
