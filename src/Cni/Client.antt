-- ===== src/Cni/Client.antt =====
-- cniclient/k8s-ovs.go: the CNI plugin, which passes its environment on to the server.
use k8s_ovs.Base.{
  ℕ, ◌≡◌, refl, Result, message, Option, none, some, List, [], ◌∷◌, Text, codes, text_dec, insert,
  ◌==◌, if◌then◌else◌,
}
use k8s_ovs.Base.Actions.{Action, pure, raise, ◌>>=◌, or_else, deferred}
use k8s_ovs.Base.Strings.{trim_space}
use k8s_ovs.Cni.{Env}

-- `CNIRequest`.
pub record CniRequest : Type 0 where
  pub env : Env
  pub config : Text

-- What the plugin uses of `json`, `http` and `types`: the socket's path is the client's.
pub record CniTransport (World : Type 0) : Type 1 where
  pub Reply : Type 0
  pub CniResult : Type 0
  pub marshal : CniRequest → Result Text
  pub post : Text → Text → Text → Action World Reply
  pub read_all : Reply → Action World Text
  pub close : Reply → World → World
  pub status_code : Reply → ℕ
  pub unmarshal : Text → Result CniResult
  pub print : CniResult → Action World (Unit {0})

-- The parts of an item at its first `=`, if it has one.
unfoldable pub at_equals : Text → Option (Text × Text)
at_equals [] = none
at_equals (c ∷ s) =
    let rest = at_equals s in
    if c == b'=' then some ([], s) else elim rest [ none ↦ none | some (k, v) ↦ some (c ∷ k, v) ]

-- The loop over `os.Environ()`: an item without `=`, or with nothing in front of it, is skipped.
unfoldable pub env_map : List Text → Env → Env
unfolding at_equals trim_space insert text_dec
env_map [] m = m
env_map (item ∷ items) m = elim (at_equals item) [
  | none ↦ env_map items m
  | some ([], v) ↦ env_map items m
  | some (c ∷ k, v) ↦ env_map items (insert text_dec (trim_space (c ∷ k)) v m)
]

unfoldable pub new_cni_request : List Text → Text → CniRequest
unfolding env_map
new_cni_request environ stdin_data = record { env = env_map environ []; config = stdin_data }

module _ {W : Type 0} (t : CniTransport W) where
  -- The body of an answer, if its status is 200.
  unfoldable pub checked_body : t.Reply → Action W Text
  checked_body resp = do
    body ← or_else (t.read_all resp) (message "failed to read CNI result")
    if t.status_code resp == 200
        then pure body
        else raise (message "CNI request failed with status")

  unfoldable pub do_cni : Text → CniRequest → Action W Text
  unfolding checked_body
  do_cni url req = do
    body ← or_else (λ w. (w, t.marshal req)) (message "failed to marshal CNI request")
    resp ←
        or_else (t.post url (codes "application/json") body) (message "failed to send CNI request")
    deferred (t.close resp) (checked_body resp)

  unfoldable pub cmd_add : List Text → Text → Action W t.CniResult
  unfolding do_cni new_cni_request
  cmd_add environ stdin_data = do
    body ← do_cni (codes "http://dummy/") (new_cni_request environ stdin_data)
    or_else (λ w. (w, t.unmarshal body)) (message "failed to unmarshal response")

  unfoldable pub skel_cmd_add : List Text → Text → Action W (Unit {0})
  unfolding cmd_add
  skel_cmd_add environ stdin_data = cmd_add environ stdin_data >>= t.print

  unfoldable pub cmd_del : List Text → Text → Action W (Unit {0})
  unfolding do_cni new_cni_request
  cmd_del environ stdin_data =
      do_cni (codes "http://dummy/") (new_cni_request environ stdin_data) >>= λ body. pure tt

passed_on :
    env_map (codes "CNI_ARGS=A=1;B=2" ∷ codes "PATH" ∷ codes "=C:" ∷ codes " HOME =/root" ∷ []) []
    ≡ (codes "CNI_ARGS", codes "A=1;B=2") ∷ (codes "HOME", codes "/root") ∷ []
unfolding env_map
passed_on = refl
