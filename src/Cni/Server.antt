-- ===== src/Cni/Server.antt =====
-- cniserver/cniserver.go, lines 96 to 134 and 195 to 215: the start of the server and its handler.
use k8s_ovs.Base.{ℕ, Result, ok, err, Error, message, Option, none, some, Text}
use k8s_ovs.Base.Actions.{Action, ◌>>=◌, ◌>>◌, pure, or_else, unless_ok}
use k8s_ovs.Cni.{Env, cni_request_to_pod_request}
use k8s_ovs.Pods.{PodRequest}

-- An answer to the plugin: the status 400 with an error, or the status 200 with a body.
pub data Response : Type 0 where
  bad_request : Error → Response
  success : Text → Response

-- `os` and `net`, as `Start` uses them.
pub record SocketHost (World : Type 0) : Type 1 where
  pub Listener : Type 0
  pub dir : Text → Text
  pub remove_all : Text → Action World (Unit {0})
  pub mkdir_all : Text → ℕ → Action World (Unit {0})
  pub listen : Text → Action World Listener
  pub chmod : Text → ℕ → Action World (Unit {0})
  pub close : Listener → Action World (Unit {0})

module _ {W : Type 0} (h : SocketHost W) where
  -- `Start`, up to the loop that serves: the listener. There is no handler for `none`.
  unfoldable pub start : Text → Option (PodRequest → Action W Text) → Action W h.Listener
  start path none w = (w, err (message "no pod request handler"))
  start path (some request_func) w =
      (do
        or_else (h.remove_all (h.dir path)) (message "failed to removing old pod info socket")
        or_else (h.mkdir_all (h.dir path) 448)
            (message "failed to create pod info socket directory")
        l ← or_else (h.listen path) (message "failed to listen on pod info socket")
        unless_ok (h.close l)
            (or_else (h.chmod path 384) (message "failed to set pod info socket mode") >> pure l))
        w

module _ {W : Type 0} (request_func : PodRequest → Action W Text) where
  -- `handleCNIRequest`, from what the body decodes to.
  unfoldable pub handle_cni_request : Result Env → W → W × Response
  unfolding cni_request_to_pod_request
  handle_cni_request decoded w = elim (cni_request_to_pod_request decoded) [
    | err e ↦ (w, bad_request e)
    | ok req ↦
        let (w', answer) = request_func req w in
        (w', elim answer [ err e ↦ bad_request e | ok result ↦ success result ])
  ]
