-- ===== src/Security.antt =====
-- GetPodSecurityContext and its helpers of controllers/common.go
pub mod Override
use volume_snapshot_mover.Prelude.{
  String, Bool, true, false, Option, none, some, List, [], ◌∷◌, ◌==◌, if◌then◌else◌,
}
use volume_snapshot_mover.Exec.{Kind, Exec, pure, deref, ◌>>=◌, if_nil}
use volume_snapshot_mover.Client.{Client, list_objects}
use volume_snapshot_mover.Api.Cluster.{Pod, Volume, Container, SecurityContext, PodSecurityContext}

unfoldable pub has_claim : String → List Volume → Bool
has_claim pvc_name [] = false
has_claim pvc_name (vol ∷ vols) = elim vol.claim [
  | none ↦ has_claim pvc_name vols
  | some name ↦ elim (name == pvc_name) [ true ↦ true | false ↦ has_claim pvc_name vols ]
]

unfoldable pub pod_has_pvc_name : Pod → String → Option Pod
unfolding has_claim
pod_has_pvc_name pod pvc_name = if has_claim pvc_name pod.volumes then some pod else none

unfoldable pub first_context : List Container → Option SecurityContext
first_context [] = none
first_context (container ∷ cs) = elim container.security_context [
  | none ↦ first_context cs
  | some sc ↦ some sc
]

unfoldable pub get_container_security_context : Pod → Option SecurityContext
unfolding first_context
get_container_security_context pod = first_context pod.containers

-- `if new != nil { old = new }`
abbrev pub override : {A : Type 0} → Option A → Option A → Option A
override none old = old
override (some a) old = some a

unfoldable pub build_pod_security_context :
    SecurityContext → PodSecurityContext → PodSecurityContext
build_pod_security_context sc pod_sc = record pod_sc {
  se_linux_options = override sc.se_linux_options pod_sc.se_linux_options;
  windows_options = override sc.windows_options pod_sc.windows_options;
  run_as_user = override sc.run_as_user pod_sc.run_as_user;
  run_as_group = override sc.run_as_group pod_sc.run_as_group;
  run_as_non_root = override sc.run_as_non_root pod_sc.run_as_non_root;
}

-- The branches for the first pod that mounts the claim; `*pod.Spec.SecurityContext` may be nil.
unfoldable pub context_of : {W : Type 0} → Pod → Exec W (Option PodSecurityContext)
unfolding get_container_security_context build_pod_security_context
context_of pod =
    if_nil (get_container_security_context pod) (pure pod.security_context) λ sc. do
      pod_sc ← deref pod.security_context
      pure (some (build_pod_security_context sc pod_sc))

unfoldable pub search_pods : {W : Type 0} → String → List Pod → Exec W (Option PodSecurityContext)
unfolding pod_has_pvc_name context_of
search_pods source_pvc_name [] = pure none
search_pods source_pvc_name (pod ∷ pods) =
    let rest = search_pods source_pvc_name pods in
    if_nil (pod_has_pvc_name pod source_pvc_name) rest (λ po. context_of po)

module _ {W : Type 0} (c : Client W) where
  unfoldable pub get_pod_security_context :
      (namespace source_pvc_name : String) → Exec W (Option PodSecurityContext)
  get_pod_security_context namespace source_pvc_name = do
    pods ← list_objects Kind.pod c.pods namespace
    search_pods source_pvc_name pods
