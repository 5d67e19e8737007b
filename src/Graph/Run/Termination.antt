-- ===== src/Graph/Run/Termination.antt =====
-- The recursion limit that a build of src/graph/builder.py needs.
use app_generation_microserv.Base.{
  ℕ, ◌+◌, ◌*◌, ◌≤◌, zero, suc, String, ◌≡◌, refl, Bool, true, false, inl, inr, Option, none, some,
  List, [], ◌∷◌, arith, if◌then◌else◌, keep, ltb, Bool-cases,
}
use app_generation_microserv.Base.Dict.{Dict}
use app_generation_microserv.Analyzer.{Diagnostic, is_fatal}
use app_generation_microserv.Ownership.{
  fail, repair_ui, repair_logic, route_for, owned_by, Owner, fatal,
}
use app_generation_microserv.Prd.{Prd}
use app_generation_microserv.Graph.State.{BuildState, initial_state}
use app_generation_microserv.Graph.State
use app_generation_microserv.Graph.Nodes.{Agents, planned, genui_wrote, logic_wrote, repairing}
use app_generation_microserv.Graph.Qa.{Project, toolchain_failed, judged}
use app_generation_microserv.Graph.Qa.Verdict.{Verdict, no_toolchain, judgement}
use app_generation_microserv.Graph.Router.{swapped, route_diagnostics, route_after_qa}
use app_generation_microserv.Graph.Run.{
  Stage, plan, genui, logic, qa, package_stage, after_qa, step, ended, Ending, recursion_error, run,
  invoke,
}
use app_generation_microserv.Graph.Run.Rule.{At, Leads, IsKept, step-Leads}

module _ (A : Agents) (max_repairs : ℕ) where
  open A use {W}

  -- `limit` steps are enough from a stage: three for each round that is left, and the last one.
  abbrev Enough : ℕ → Stage → BuildState → Type 0
  Enough limit plan s =
      (s.repair_attempts ≤ max_repairs) × (3 * suc max_repairs + 2 ≤ limit + 3 * s.repair_attempts)
  Enough limit genui s =
      (s.repair_attempts ≤ max_repairs) × (3 * suc max_repairs + 1 ≤ limit + 3 * s.repair_attempts)
  Enough limit logic s =
      (s.repair_attempts ≤ max_repairs) × (3 * suc max_repairs ≤ limit + 3 * s.repair_attempts)
  Enough limit qa s =
      (s.repair_attempts ≤ max_repairs) × (3 * suc max_repairs ≤ limit + 3 * s.repair_attempts + 1)
  Enough limit package_stage s = 1 ≤ limit

  abbrev Ended : BuildState → Type 0
  Ended s = Unit

  repaired-Enough :
      (limit : ℕ) (s : BuildState) (stalled stuck widgets : Bool)
      → s.repair_attempts ≤ max_repairs
      → 3 * suc max_repairs + 1 ≤ limit + 3 * s.repair_attempts
      → At
          (Enough limit)
          Ended
          (after_qa
            (swapped stalled (if stuck then fail else if widgets then repair_ui else repair_logic)))
          s
  repaired-Enough limit s true true widgets b e = tt
  repaired-Enough limit s true false true b e = (b, omega (arith, e))
  repaired-Enough limit s true false false b e = (b, e)
  repaired-Enough limit s false true widgets b e = tt
  repaired-Enough limit s false false true b e = (b, e)
  repaired-Enough limit s false false false b e = (b, omega (arith, e))

  judged-Enough :
      (limit : ℕ) (s : BuildState) (attempts : ℕ) (errors : List Diagnostic)
      → s.diagnostics ≡ errors
      → s.phase ≡ (if repairing errors then State.qa else State.packaging)
      → s.repair_attempts ≡ attempts + (if repairing errors then 1 else 0)
      → attempts ≤ max_repairs
      → 3 * suc max_repairs ≤ suc limit + 3 * attempts + 1
      → At (Enough limit) Ended (after_qa (route_after_qa max_repairs s)) s
  unfolding route_after_qa route_diagnostics route_for
  judged-Enough limit s attempts [] none_left phase count b e =
      rw (phase, none_left) (omega (arith, count, b, e))
  judged-Enough limit s attempts (d ∷ ds) some_left phase count b e =
      elim (Bool-cases (ltb max_repairs s.repair_attempts)) [
        | inl over ↦ rw (phase, some_left, over) tt
        | inr within ↦
            rw (phase, some_left, within)
              (repaired-Enough limit (record s { diagnostics = d ∷ ds; phase = State.qa }) s.stalled
                (owned_by fatal (d ∷ ds)) (owned_by Owner.genui (d ∷ ds)) (ground (arith, within))
                (omega (arith, count, e)))
      ]

  checked-Enough :
      (limit : ℕ) (s : BuildState) (p : Project A) (s' : BuildState)
      → Enough (suc limit) qa s
      → Verdict A s p s'
      → At (Enough limit) Ended (after_qa (route_after_qa max_repairs s')) s'
  unfolding toolchain_failed judged route_after_qa
  checked-Enough limit s p _ b (no_toolchain exc) = tt
  checked-Enough limit s p _ (b, e) (judgement ds) =
      judged-Enough limit (judged A s p ds) s.repair_attempts (keep is_fatal ds) refl refl refl b e

  Enough-kept : (limit : ℕ) → IsKept A max_repairs (Enough (suc limit)) (Enough limit) Ended
  unfolding planned genui_wrote logic_wrote
  Enough-kept limit = record {
    planning = λ s p (b, e). (b, omega (arith, e));
    after_genui = λ s files (b, e). (b, omega (arith, e));
    after_logic = λ s files (b, e). (b, omega (arith, e));
    checked = checked-Enough limit;
    packing = λ s w h. tt;
  }

  abbrev pub is_recursion_error : Ending A → Bool
  is_recursion_error recursion_error = true
  is_recursion_error _ = false

  no_steps : (stage : Stage) (s : BuildState) → Enough 0 stage s → ⊥
  no_steps plan s (b, e) = omega (arith, b, e)
  no_steps genui s (b, e) = omega (arith, b, e)
  no_steps logic s (b, e) = omega (arith, b, e)
  no_steps qa s (b, e) = omega (arith, b, e)
  no_steps package_stage s e = omega (arith, e)

  run-Enough :
      (limit : ℕ) (stage : Stage) (s : BuildState) (disk : Dict String) (w : W)
      → Enough limit stage s
      → is_recursion_error (run A limit max_repairs stage s disk w) ≡ false
  unfolding run
  run-Enough zero stage s disk w h = absurd (no_steps stage s h)
  run-Enough (suc limit) stage s disk w h =
      go (step A max_repairs stage s disk w)
        (step-Leads A max_repairs (Enough-kept limit) stage s disk w h)
        (λ st s' d' w'. run-Enough limit st s' d' w')
    where
      go :
          (o : Option (Option Stage × BuildState × Dict String × W))
          → Leads A max_repairs (Enough limit) Ended o
          → ((st : Stage) (s' : BuildState) (d' : Dict String) (w' : W)
              → Enough limit st s'
              → is_recursion_error (run A limit max_repairs st s' d' w') ≡ false)
          → is_recursion_error (ended A (run A limit max_repairs) o) ≡ false
      go none l ih = refl
      go (some (none, s', d', w')) l ih = refl
      go (some (some st, s', d', w')) l ih = ih st s' d' w' l

  -- With a recursion limit of at least `3 * (max_repairs + 1) + 2`, a build never ends in
  -- LangGraph's recursion error: it finishes, or an agent raises.
  pub invoke_terminates :
      (limit : ℕ) (prd : Prd) (build_dir : String) (disk : Dict String) (w : W)
      → 3 * suc max_repairs + 2 ≤ limit
      → is_recursion_error (invoke A limit max_repairs prd build_dir disk w) ≡ false
  unfolding invoke initial_state
  invoke_terminates limit prd build_dir disk w h =
      run-Enough limit plan (initial_state prd build_dir) disk w (omega arith, omega (arith, h))
