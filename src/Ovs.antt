-- ===== src/Ovs.antt =====
-- pkg/ovs/ovs.go: the wrapper around ovs-vsctl and ovs-ofctl.
pub mod Transaction
pub mod Ports
use k8s_ovs.Base.{
  ℕ, zero, suc, ◌+◌, ◌<◌, ◌≡◌, Bool, true, false, Result, ok, err, ◌>>=◌, Error, message, Option,
  none, some, List, [], ◌∷◌, ◌++◌, Text, codes, text_dec, ite, ltb, if◌then◌else◌, decimal, ◌==◌,
}
use k8s_ovs.Base.Strings.{split, contains}

-- `exec.Interface`: looking a command up, and running it for its combined output. `World` is what the
-- commands read and change.
pub record Exec : Type 1 where
  pub World : Type 0
  pub look_path : Text → World → Result Text
  pub run : Text → List Text → World → World × Result Text

abbrev pub ovs_ofctl : Text
ovs_ofctl = codes "ovs-ofctl"

abbrev pub ovs_vsctl : Text
ovs_vsctl = codes "ovs-vsctl"

-- The output without its newline, if it is a single line that ends in one.
unfoldable pub strip_line : Text → Text
strip_line [] = []
strip_line (c ∷ []) = if c == 10 then [] else c ∷ []
strip_line (c ∷ d ∷ s) = let rest = strip_line (d ∷ s) in if c == 10 then c ∷ d ∷ s else c ∷ rest

module _ (x : Exec) where
  -- `Interface.exec`.
  unfoldable pub exec : Text → List Text → x.World → x.World × Result Text
  unfolding text_dec strip_line
  exec cmd args w =
      let args' = ite (text_dec cmd ovs_ofctl) (codes "-O" ∷ codes "OpenFlow13" ∷ args) args in
      let (w', output) = x.run cmd args' w in
      (w', elim output [ err e ↦ err e | ok out ↦ ok (strip_line out) ])

  -- `New`: the bridge, if both commands are installed.
  unfoldable pub new : Text → x.World → Result Text
  new bridge w = elim (x.look_path ovs_ofctl w) [
    | err e ↦ err (message "OVS is not installed")
    | ok _ ↦ elim (x.look_path ovs_vsctl w) [
      | err e ↦ err (message "OVS is not installed")
      | ok _ ↦ ok bridge
    ]
  ]
