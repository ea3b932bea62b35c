-- ===== src/Tasks/Effects/Hooks.antt =====
-- `SequentialHookExecutor.run` of src/task_queue/hook_execution.py, and which of its hooks run.
use funasr_api.Prelude.{
  ◌≡◌, refl, ◌∙◌, String, Bool, true, false, ◌&&◌, List, [], ◌∷◌, ◌++◌, if◌then◌else◌, Bool-cases,
  inl, inr, ◌⊎◌, ap,
}
use funasr_api.Tasks.Effects.{Outcome, returned, raised, Action}

module _ {H W : Type 0} (critical : H → Bool) (invoke : H → Action W (Unit {0})) where
  -- What `run` does once a hook has ended; `rest` runs the hooks behind it.
  abbrev pub after_hook :
      Bool → H → Outcome (Unit {0}) × W → Action W (Unit {0}) → Outcome (Unit {0}) × W
  after_hook raise_critical h (returned u, w) rest = rest w
  after_hook raise_critical h (raised e, w) rest =
      if critical h && raise_critical then (raised e, w) else rest w

  -- `SequentialHookExecutor.run`
  unfoldable pub run : Bool → List H → Action W (Unit {0})
  run raise_critical [] w = (returned tt, w)
  run raise_critical (h ∷ hs) w = after_hook raise_critical h (invoke h w) (run raise_critical hs)

  -- The state after all of the hooks, whatever they raise.
  unfoldable pub state_after : List H → W → W
  state_after [] w = w
  state_after (h ∷ hs) w = state_after hs (invoke h w).1

  -- The hook does not stop the run: it ends well, or its exception is only logged.
  abbrev pub LetsContinue : Bool → H → W → Type 0
  LetsContinue raise_critical h w =
      ((invoke h w).0 ≡ returned tt) ⊎ ((critical h && raise_critical) ≡ false)

  abbrev pub AllContinue : Bool → List H → W → Type 0
  AllContinue raise_critical [] w = Unit
  AllContinue raise_critical (h ∷ hs) w =
      LetsContinue raise_critical h w × AllContinue raise_critical hs (invoke h w).1

  -- How a run ends: behind the last hook, or at the first one that does not let it continue.
  abbrev pub RunEnds : Bool → List H → W → Type 0
  RunEnds raise_critical hs w =
      (AllContinue raise_critical hs w
        × (run raise_critical hs w ≡ (returned tt, state_after hs w)))
      ⊎ ((before : List H) × (h : H) × (behind : List H) × (e : String) × (hs
            ≡ before ++ h ∷ behind)
          × AllContinue raise_critical before w
          × ((critical h && raise_critical) ≡ true)
          × ((invoke h (state_after before w)).0 ≡ raised e)
          × (run raise_critical hs w ≡ (raised e, (invoke h (state_after before w)).1)))

  run_step :
      (rc : Bool) (h : H) (hs : List H) (w : W)
      → run rc (h ∷ hs) w ≡ after_hook rc h (invoke h w) (run rc hs)
  unfolding run
  run_step rc h hs w = refl

  run_continues :
      (rc : Bool) (h : H) (hs : List H) (w : W)
      → LetsContinue rc h w
      → run rc (h ∷ hs) w ≡ run rc hs (invoke h w).1
  run_continues rc h hs w go = go_on (invoke h w) refl go
    where
      go_on :
          (r : Outcome (Unit {0}) × W)
          → invoke h w ≡ r
          → (r.0 ≡ returned tt) ⊎ ((critical h && rc) ≡ false)
          → run rc (h ∷ hs) w ≡ run rc hs r.1
      go_on (returned u, w') e k = rw (run_step, e) refl
      go_on (raised m, w') e (inl k) = cc
      go_on (raised m, w') e (inr k) = rw (run_step, e, k) refl

  -- The run calls the hooks in their order and each at most once. It ends behind the last hook, and
  -- returns, or at the first hook that is critical and raises, where critical hooks count, and
  -- raises what that hook has raised; the hooks behind it have then changed nothing.
  pub run-RunEnds : (rc : Bool) (hs : List H) (w : W) → RunEnds rc hs w
  unfolding run state_after
  run-RunEnds rc [] w = inl (tt, refl)
  run-RunEnds rc (h ∷ hs) w = decide (invoke h w) refl (run-RunEnds rc hs (invoke h w).1)
    where
      continue : LetsContinue rc h w → RunEnds rc hs (invoke h w).1 → RunEnds rc (h ∷ hs) w
      continue k (inl (all, e)) = inl ((k, all), run_continues rc h hs w k ∙ e)
      continue k (inr (before, g, behind, m, e, all, c, r, q)) =
          inr (h ∷ before, g, behind, m, ap (h ∷◌) e, (k, all), c, r, run_continues rc h hs w k ∙ q)

      decide :
          (r : Outcome (Unit {0}) × W)
          → invoke h w ≡ r
          → RunEnds rc hs (invoke h w).1
          → RunEnds rc (h ∷ hs) w
      decide (returned u, w') e rest =
          continue (inl (ap (λ (p : Outcome (Unit {0}) × W). p.0) e)) rest
      decide (raised m, w') e rest = elim (Bool-cases (critical h && rc)) [
        | inl c ↦ inr (
          [],
          h,
          hs,
          m,
          refl,
          tt,
          c,
          ap (λ (p : Outcome (Unit {0}) × W). p.0) e,
          rw (run_step, e, c) refl,
        )
        | inr c ↦ continue (inr c) rest
      ]
