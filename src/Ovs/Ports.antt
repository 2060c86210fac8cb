-- ===== src/Ovs/Ports.antt =====
-- pkg/ovs/ovs.go, lines 59 to 116: the bridge and its ports.
use k8s_ovs.Base.{
  ℕ, ◌<◌, ◌≡◌, Bool, true, false, ◌||◌, Result, ok, err, message, List, [], ◌∷◌, ◌++◌, Text, codes,
  ltb, ◌==◌, if◌then◌else◌, decimal, arith,
}
use k8s_ovs.Base.Atoi.{ℤ, pos, negsuc, atoi}
use k8s_ovs.Ovs.{Exec, exec, ovs_vsctl}

abbrev pub nonempty : List Text → Bool
nonempty [] = false
nonempty (t ∷ l) = true

-- An answer of which only the error counts.
abbrev pub forget : Result Text → Result (Unit {0})
forget (err e) = err e
forget (ok out) = ok tt

module _ (x : Exec) where
  unfoldable pub add_bridge : Text → List Text → x.World → x.World × Result (Unit {0})
  add_bridge bridge properties w =
      let args =
        codes "--if-exists" ∷ codes "del-br" ∷ bridge ∷ codes "--" ∷ codes "add-br" ∷ bridge ∷ [] in
      let args' =
        if nonempty properties
        then args ++ (codes "--" ∷ codes "set" ∷ codes "Bridge" ∷ bridge ∷ properties)
        else args in
      let (w', answer) = exec x ovs_vsctl args' w in (w', forget answer)

  unfoldable pub delete_bridge : Text → x.World → x.World × Result (Unit {0})
  delete_bridge bridge w =
      let (w', answer) = exec x ovs_vsctl (codes "del-br" ∷ bridge ∷ []) w in (w', forget answer)

  -- The arguments of the first command of `AddPort`, with a port number that is not negative.
  unfoldable pub add_port_args : Text → Text → ℕ → List Text → List Text
  unfolding decimal
  add_port_args bridge port request properties =
      let args = codes "--may-exist" ∷ codes "add-port" ∷ bridge ∷ port ∷ [] in
      let args' = args ++ (codes "--" ∷ codes "set" ∷ codes "Interface" ∷ port ∷ []) in
      let args'' =
        if ltb 0 request
        then args' ++ (codes "ofport_request=" ++ decimal request) ∷ []
        else args' in
      if ltb 0 request || nonempty properties then args'' ++ properties else args

  -- The end of `AddPort`: the number that was allocated, if it is the one that was requested.
  unfoldable pub check_port : ℕ → Result ℤ → Result ℤ
  check_port request (err e) = err (message "Could not parse allocated ofport")
  check_port request (ok (pos ofport)) =
      if ltb 0 request
      then (if request == ofport
          then ok (pos ofport)
          else err (message "Allocated ofport did not match request"))
      else ok (pos ofport)
  check_port request (ok (negsuc n)) =
      if ltb 0 request
      then err (message "Allocated ofport did not match request")
      else ok (negsuc n)

  unfoldable pub add_port : Text → Text → ℕ → List Text → x.World → x.World × Result ℤ
  unfolding add_port_args check_port atoi
  add_port bridge port request properties w =
      let (w1, answer) = exec x ovs_vsctl (add_port_args bridge port request properties) w in
      let (w2, printed) =
        exec x ovs_vsctl (codes "get" ∷ codes "Interface" ∷ port ∷ codes "ofport" ∷ []) w1 in
      elim answer [
        | err e ↦ (w1, err e)
        | ok _ ↦ (w2, elim printed [ err e ↦ err e | ok ofport ↦ check_port request (atoi ofport) ])
      ]

  unfoldable pub delete_port : Text → Text → x.World → x.World × Result (Unit {0})
  delete_port bridge port w =
      let (w', answer) =
        exec x ovs_vsctl (codes "--if-exists" ∷ codes "del-port" ∷ bridge ∷ port ∷ []) w in
      (w', forget answer)

  -- If `AddPort` with a requested number above 0 succeeds, the number it answers is the requested
  -- one.
  add_port_requested :
      (bridge port : Text) (request : ℕ) (properties : List Text) (w : x.World) (n : ℤ)
      → 0 < request
      → (add_port bridge port request properties w).1 ≡ ok n
      → n ≡ pos request
  unfolding add_port check_port
  add_port_requested bridge port request properties w n h e = ground arith
