-- ===== src/Setup/Untouched.antt =====
-- ksdn/controller.go, `SetupSDN`: what the steps before the version's flow may leave untouched.
use k8s_ovs.Base.{ℕ, ◌≡◌, Bool, false, err, Error, List, [], ◌∷◌, Text, codes, if◌then◌else◌}
use k8s_ovs.Base.Strings.{has_prefix}
use k8s_ovs.Ovs.{Exec}
use k8s_ovs.Setup.Run.{Host}

-- Whether a command adds the flow of the version: `-O OpenFlow13 add-flow <bridge> <flow>`.
abbrev flow_of_version : List Text → Bool
flow_of_version (v ∷ c ∷ bridge ∷ flow ∷ args) = has_prefix flow (codes "table=253")
flow_of_version args = false

unfoldable pub writes_version : List Text → Bool
unfolding has_prefix
writes_version [] = false
writes_version (o ∷ args) = if has_prefix o (codes "-O") then flow_of_version args else false

-- What no step of the setup but the version's flow touches.
pub record IsUntouched (x : Exec) (h : Host x.World) (I : x.World → Type 0) : Type 0 where
  pub by_command :
      (cmd : Text) (args : List Text) (w : x.World)
      → writes_version args ≡ false
      → I w
      → I (x.run cmd args w).0
  pub by_failure :
      (cmd : Text) (args : List Text) (w : x.World) (e : Error)
      → (x.run cmd args w).1 ≡ err e
      → I w
      → I (x.run cmd args w).0
  pub by_mkdir : (path : Text) (w : x.World) → I w → I (h.mkdir_all path w).0
  pub by_write : (path text : Text) (w : x.World) → I w → I (h.write_file path text w).0
  pub by_sysctl : (name : Text) (n : ℕ) (w : x.World) → I w → I (h.set_sysctl name n w).0
  pub by_sleep : (w : x.World) → I w → I (h.sleep w)
