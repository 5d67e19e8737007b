-- ===== src/Graph/Packaging.antt =====
-- src/graph/nodes.py: `make_packaging_node`, which runs the packaging step behind its gate.
use Prim.Native.String.{◌++◌}
use mathlib.Core.List
use app_generation_microserv.Base.{String, true, Option, none, some, [], ◌∷◌}
use app_generation_microserv.Base.Json.{Value}
use app_generation_microserv.Build.Pipeline.{
  Outcome, returned, payment_not_verified, Status, built, skipped, failed, run_build,
}
use app_generation_microserv.Graph.State.{BuildState, Phase}
use app_generation_microserv.Graph.State
use app_generation_microserv.Graph.Nodes.{Agents}

abbrev pub or_empty : Option String → String
or_empty none = ""
or_empty (some s) = s

abbrev status_text : Status → String
status_text built = "built"
status_text skipped = "skipped"
status_text failed = "failed"

abbrev pub phase_after : Status → Phase
phase_after failed = State.failed
phase_after _ = State.done

abbrev pub failure_after : Status → String → String
failure_after failed detail = detail
failure_after _ detail = ""

unfoldable pub packaged : BuildState → Outcome → BuildState
packaged s payment_not_verified = record s {
  phase = State.done;
  log = List.◌++◌ s.log (
      "packaging: gate closed — x402_payment_verified is not True — refusing to run the build pipeline"
      ∷ []);
}
packaged s (returned r) = record s {
  phase = phase_after r.status;
  failure = failure_after r.status r.detail;
  apk_path = or_empty r.apk_path;
  log = List.◌++◌ s.log (("packaging: " ++ status_text r.status ++ " — " ++ r.detail) ∷ []);
}

module _ (A : Agents) where
  open A use {W, machine, dry_run, build_mode}

  unfoldable pub packaging_node : BuildState → W → BuildState
  unfolding packaged
  packaging_node s w =
      packaged s
        (run_build (machine w) (Value.bool s.x402_payment_verified) true dry_run build_mode).0
