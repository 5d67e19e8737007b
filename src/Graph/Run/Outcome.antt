-- ===== src/Graph/Run/Outcome.antt =====
-- What holds of the state where a build of src/graph/builder.py ends.
use app_generation_microserv.Base.{
  ℕ, ◌+◌, ◌≤◌, suc, String, ◌≡◌, refl, subst, ◌⊎◌, inl, inr, Bool, true, false, Option, none, some,
  List, [], ◌∷◌, arith, if◌then◌else◌, keep, ltb, Bool-cases,
}
use app_generation_microserv.Base.Dict.{Dict}
use app_generation_microserv.Base.Json.{Value}
use app_generation_microserv.Analyzer.{Diagnostic, is_fatal}
use app_generation_microserv.Ownership.{
  fail, repair_ui, repair_logic, route_for, owned_by, Owner, fatal,
}
use app_generation_microserv.Prd.{Prd}
use app_generation_microserv.Build.Pipeline.{Outcome, returned, payment_not_verified, run_build}
use app_generation_microserv.Payments.Gate.{is_verified}
use app_generation_microserv.Graph.State.{BuildState, Phase, initial_state}
use app_generation_microserv.Graph.State
use app_generation_microserv.Graph.Nodes.{Agents, planned, genui_wrote, logic_wrote, repairing}
use app_generation_microserv.Graph.Qa.{Project, toolchain_failed, judged}
use app_generation_microserv.Graph.Qa.Verdict.{Verdict, no_toolchain, judgement}
use app_generation_microserv.Graph.Packaging.{packaged, packaging_node}
use app_generation_microserv.Graph.Router.{swapped, route_diagnostics, route_after_qa}
use app_generation_microserv.Graph.Run.{
  Stage, plan, qa, package_stage, after_qa, Ending, finished, invoke,
}
use app_generation_microserv.Graph.Run.Rule.{EndsIn, At, IsKept, run-EndsIn}

module _ (A : Agents) (max_repairs : ℕ) where
  open A use {W, machine, dry_run, build_mode}

  -- the state in the ending is one where `Q` holds
  pub finished-EndsIn :
      (Q : BuildState → Type 0) (e : Ending A) (s : BuildState) (disk : Dict String) (w : W)
      → e ≡ finished s disk w
      → EndsIn A max_repairs Q e
      → Q s
  finished-EndsIn Q e s disk w e≡ h = subst (λ e. EndsIn A max_repairs Q e) e≡ h

  abbrev Unpaid : Stage → BuildState → Type 0
  Unpaid stage s = (s.x402_payment_verified ≡ false) × (s.apk_path ≡ "")

  abbrev Unbuilt : BuildState → Type 0
  Unbuilt s = s.apk_path ≡ ""

  Unpaid-At :
      (o : Option Stage) (s : BuildState)
      → s.x402_payment_verified ≡ false
      → s.apk_path ≡ ""
      → At Unpaid Unbuilt o s
  Unpaid-At none s v p = p
  Unpaid-At (some stage) s v p = (v, p)

  Unpaid-checked :
      (s : BuildState) (p : Project A) (s' : BuildState)
      → Unpaid qa s
      → Verdict A s p s'
      → At Unpaid Unbuilt (after_qa (route_after_qa max_repairs s')) s'
  unfolding toolchain_failed judged
  Unpaid-checked s p _ (v, e) (no_toolchain exc) = Unpaid-At _ (toolchain_failed A s exc) v e
  Unpaid-checked s p _ (v, e) (judgement ds) = Unpaid-At _ (judged A s p ds) v e

  Unpaid-packing :
      (s : BuildState) (w : W) → Unpaid package_stage s → Unbuilt (packaging_node A s w)
  unfolding packaging_node packaged run_build is_verified
  Unpaid-packing s w (v, e) = rw v e

  Unpaid-kept : IsKept A max_repairs Unpaid Unpaid Unbuilt
  unfolding planned genui_wrote logic_wrote
  Unpaid-kept = record {
    planning = λ s p h. h;
    after_genui = λ s files h. h;
    after_logic = λ s files h. h;
    checked = Unpaid-checked;
    packing = Unpaid-packing;
  }

  -- A build for a PRD whose payment is not verified ends without an APK, however its agents answer.
  pub invoke-unpaid :
      (limit : ℕ) (prd : Prd) (build_dir : String) (disk : Dict String) (w : W) (s : BuildState)
      (disk' : Dict String) (w' : W)
      → prd.x402_payment_verified ≡ false
      → invoke A limit max_repairs prd build_dir disk w ≡ finished s disk' w'
      → s.apk_path ≡ ""
  unfolding invoke initial_state
  invoke-unpaid limit prd build_dir disk w s disk' w' unpaid ends =
      finished-EndsIn Unbuilt (invoke A limit max_repairs prd build_dir disk w) s disk' w' ends (
        run-EndsIn A max_repairs Unpaid-kept limit plan (initial_state prd build_dir) disk w
          (unpaid, refl))

  -- What a route promises of a state: a package only without a diagnostic, and a repair only
  -- within the budget.
  abbrev Clean : Stage → BuildState → Type 0
  Clean package_stage s = (s.diagnostics ≡ []) × (s.repair_attempts ≤ suc max_repairs)
  Clean _ s = s.repair_attempts ≤ max_repairs

  is_done : Phase → Bool
  is_done State.done = true
  is_done _ = false

  abbrev Settled : BuildState → Type 0
  Settled s =
      ((is_done s.phase ≡ false) ⊎ (s.diagnostics ≡ [])) × (s.repair_attempts ≤ suc max_repairs)

  -- a failed build, or one that goes to an agent
  repaired-At :
      (s : BuildState) (stalled stuck widgets : Bool)
      → is_done s.phase ≡ false
      → s.repair_attempts ≤ max_repairs
      → At Clean Settled
          (after_qa
            (swapped stalled (if stuck then fail else if widgets then repair_ui else repair_logic)))
          s
  repaired-At s true true widgets h b = (inl h, omega (arith, b))
  repaired-At s true false true h b = b
  repaired-At s true false false h b = b
  repaired-At s false true widgets h b = (inl h, omega (arith, b))
  repaired-At s false false true h b = b
  repaired-At s false false false h b = b

  judged-At :
      (s : BuildState) (attempts : ℕ) (errors : List Diagnostic)
      → s.diagnostics ≡ errors
      → s.phase ≡ (if repairing errors then State.qa else State.packaging)
      → s.repair_attempts ≡ attempts + (if repairing errors then 1 else 0)
      → attempts ≤ max_repairs
      → At Clean Settled (after_qa (route_after_qa max_repairs s)) s
  unfolding route_after_qa route_diagnostics route_for is_done
  judged-At s attempts [] none_left phase count b =
      rw (phase, none_left) (refl, omega (arith, count, b))
  judged-At s attempts (d ∷ ds) some_left phase count b =
      elim (Bool-cases (ltb max_repairs s.repair_attempts)) [
        | inl over ↦ rw (phase, some_left, over) (inl refl, omega (arith, count, b))
        | inr within ↦
            rw (phase, some_left, within)
              (repaired-At (record s { diagnostics = d ∷ ds; phase = State.qa }) s.stalled
                (owned_by fatal (d ∷ ds)) (owned_by Owner.genui (d ∷ ds)) refl
                (ground (arith, within)))
      ]

  settled_checked :
      (s : BuildState) (p : Project A) (s' : BuildState)
      → Clean qa s
      → Verdict A s p s'
      → At Clean Settled (after_qa (route_after_qa max_repairs s')) s'
  unfolding toolchain_failed judged route_after_qa is_done
  settled_checked s p _ b (no_toolchain exc) = (inl refl, omega (arith, b))
  settled_checked s p _ b (judgement ds) =
      judged-At (judged A s p ds) s.repair_attempts (keep is_fatal ds) refl refl refl b

  settled_packing :
      (s : BuildState) (w : W) → Clean package_stage s → Settled (packaging_node A s w)
  unfolding packaging_node packaged
  settled_packing s w (c, b) =
      split (run_build (machine w) (Value.bool s.x402_payment_verified) true dry_run build_mode).0
    where
      split : (o : Outcome) → Settled (packaged s o)
      split payment_not_verified = (inr c, b)
      split (returned r) = (inr c, b)

  settled_kept : IsKept A max_repairs Clean Clean Settled
  unfolding planned genui_wrote logic_wrote
  settled_kept = record {
    planning = λ s p h. h;
    after_genui = λ s files h. h;
    after_logic = λ s files h. h;
    checked = settled_checked;
    packing = settled_packing;
  }

  invoke-Settled :
      (limit : ℕ) (prd : Prd) (build_dir : String) (disk : Dict String) (w : W) (s : BuildState)
      (disk' : Dict String) (w' : W)
      → invoke A limit max_repairs prd build_dir disk w ≡ finished s disk' w'
      → Settled s
  unfolding invoke initial_state
  invoke-Settled limit prd build_dir disk w s disk' w' ends =
      finished-EndsIn Settled (invoke A limit max_repairs prd build_dir disk w) s disk' w' ends (
        run-EndsIn A max_repairs settled_kept limit plan (initial_state prd build_dir) disk w
          (omega arith))

  -- A build never counts more than one round of repair beyond the budget.
  pub invoke-repair_attempts :
      (limit : ℕ) (prd : Prd) (build_dir : String) (disk : Dict String) (w : W) (s : BuildState)
      (disk' : Dict String) (w' : W)
      → invoke A limit max_repairs prd build_dir disk w ≡ finished s disk' w'
      → s.repair_attempts ≤ suc max_repairs
  invoke-repair_attempts limit prd build_dir disk w s disk' w' ends =
      (invoke-Settled limit prd build_dir disk w s disk' w' ends).1
