-- ===== src/Interaction/Coordinator/Reachable.antt =====
-- The in-memory coordinator refines the state machine: what `get_state` shows of one interaction
-- moves by the machine's steps, one for each unit of `transition_index`.
use career_coordination_mcp.Prelude.{
  ℕ, suc, ◌+◌, ◌≤◌, ◌≡◌, sym, ◌∙◌, Str, str_eq, str_eq_iff, Option, none, some, List, [], ◌∷◌,
  arith, inl, inr, Bool-cases, str_eq→eq, ◌&&◌, is_none,
}
use native.Mathlib.Numerals.{add-one}
use mathlib.Core.Path.{subst}
use career_coordination_mcp.Prelude.StringMap.{find}
use career_coordination_mcp.Domain.Interaction.{
  InteractionState, draft, closed, InteractionEvent, target,
}
use career_coordination_mcp.Domain.Interaction.Machine.{
  Step, Run, here, next, allowed→Step, Run-rank, rank-le, closed_of_rank,
}
use career_coordination_mcp.Interaction.Coordinator.{
  StateInfo, Coordinator, empty, apply_transition, get_state, create_interaction, Call, applies,
  creates, step, run,
}
use career_coordination_mcp.Interaction.Coordinator.Laws.{
  Ending, missing, replayed, refused, commits, ending, info, fresh, get_state-eq_some,
  get_state-committed, create_interaction_lem,
}

-- One call, as one interaction sees it: nothing, its creation, or a step of the machine.
pub data Move (before after : Option StateInfo) : Type 0 where
  stays : after ≡ before → Move before after
  created : before ≡ none → after ≡ some fresh → Move before after
  moved :
      (s : StateInfo) (e : InteractionEvent) (t : InteractionState)
      → Step s.state e t
      → before ≡ some s
      → after ≡ some (record { state = t; transition_index = s.transition_index + 1 })
      → Move before after

apply-Move :
    (c : Coordinator) (id : Str) (e : InteractionEvent) (key j : Str)
    → Ending c id e key (apply_transition c id e key)
    → Move (get_state c j) (get_state (apply_transition c id e key).0 j)
apply-Move c id e key j (missing _ o) = stays (rw o)
apply-Move c id e key j (replayed r rc _ _ o) = stays (rw o)
apply-Move c id e key j (refused r _ _ _ o) = stays (rw o)
apply-Move c id e key j (commits r f g h o) = rw o (elim (Bool-cases (str_eq id j)) [
  | inl same ↦
      moved (info r) e (target e) (allowed→Step r.interaction.state e h)
        (rw (← str_eq→eq id j same) (get_state-eq_some c id r f))
        (get_state-committed c id key e r j ∙ rw same)
  | inr other ↦ stays (get_state-committed c id key e r j ∙ rw other)
])

create-Move :
    (c : Coordinator) (id contact opportunity j : Str)
    → Move (get_state c j) (get_state (create_interaction c id contact opportunity).0 j)
create-Move c id contact opportunity j =
    let after = (create_interaction_lem c id contact opportunity j).1 in
    elim (Bool-cases (str_eq id j && is_none (get_state c id))) [
      | inl new ↦ created (ground (arith, str_eq_iff id j)) (after ∙ rw new)
      | inr old ↦ stays (after ∙ rw old)
    ]

-- Whatever the call, each interaction stays, is created as a draft, or makes one step.
pub step-Move :
    (c : Coordinator) (call : Call) (j : Str) → Move (get_state c j) (get_state (step c call) j)
unfolding step
step-Move c (applies id e key) j = apply-Move c id e key j (ending c id e key)
step-Move c (creates id contact opportunity) j = create-Move c id contact opportunity j

-- The state was reached from a draft in as many steps as the index counts.
abbrev pub IsReachable : Option StateInfo → Type 0
IsReachable none = Unit
IsReachable (some s) = Run draft s.transition_index s.state

Move-IsReachable : {o o' : Option StateInfo} → Move o o' → IsReachable o → IsReachable o'
Move-IsReachable (stays e) h = rw e h
Move-IsReachable (created e e') h = rw e' here
Move-IsReachable (moved s e t st p q) h =
    rw q (subst (λ n. Run draft n t) (sym (add-one s.transition_index)) (next e (rw p at h) st))

pub run-IsReachable :
    (c : Coordinator) (calls : List Call) (j : Str)
    → IsReachable (get_state c j)
    → IsReachable (get_state (run c calls) j)
unfolding run
run-IsReachable c [] j h = h
run-IsReachable c (call ∷ calls) j h =
    run-IsReachable (step c call) calls j (Move-IsReachable (step-Move c call j) h)

-- After any calls from the empty coordinator, an interaction that `get_state` shows has been
-- reached from a draft in exactly `transition_index` steps of the machine, and the index is at most 4.
pub index_counts_steps :
    (calls : List Call) (j : Str) (s : StateInfo)
    → get_state (run empty calls) j ≡ some s
    → Run draft s.transition_index s.state × (s.transition_index ≤ 4)
unfolding get_state find
index_counts_steps calls j s h =
    let reached : Run draft s.transition_index s.state =
      rw h at (run-IsReachable empty calls j tt) in
    (reached, omega (arith, Run-rank reached, rank-le s.state))

-- What a later observation of an interaction has to do with an earlier one.
abbrev pub Later : StateInfo → Option StateInfo → Type 0
Later s none = ⊥
Later s (some t) = (n : ℕ) × Run s.state n t.state × (t.transition_index ≡ s.transition_index + n)

Later-Move : (s : StateInfo) {o o' : Option StateInfo} → Move o o' → Later s o → Later s o'
Later-Move s (stays e) h = rw e h
Later-Move s (created e e') h = absurd (rw e at h)
Later-Move s (moved t e u st p q) h =
    let (n, r, k) = (let l : Later s (some t) = rw p at h in l) in
    rw q (suc n, next e r st, omega arith)

run-Later_from :
    (c : Coordinator) (calls : List Call) (j : Str) (s : StateInfo)
    → Later s (get_state c j)
    → Later s (get_state (run c calls) j)
unfolding run
run-Later_from c [] j s l = l
run-Later_from c (call ∷ calls) j s l =
    run-Later_from (step c call) calls j s (Later-Move s (step-Move c call j) l)

-- Once created an interaction never disappears: whatever calls follow, it is shown in a state that
-- the machine reaches from the earlier one, and the index grows by the number of steps between.
pub run-Later :
    (c : Coordinator) (calls : List Call) (j : Str) (s : StateInfo)
    → get_state c j ≡ some s
    → Later s (get_state (run c calls) j)
run-Later c calls j s h = run-Later_from c calls j s (rw h (0, here, omega arith))

Run-closed : {n : ℕ} {t : InteractionState} → Run closed n t → (n ≡ 0) × (t ≡ closed)
Run-closed {n} {t} r =
    (omega (arith, Run-rank r, rank-le t), closed_of_rank t (omega (arith, Run-rank r)))

closed_Later : (s : StateInfo) (o : Option StateInfo) → s.state ≡ closed → Later s o → o ≡ some s
closed_Later s none e l = absurd l
closed_Later s (some t) e l = let end = Run-closed (rw e at (l.1)) in ground (arith, end)

-- A closed interaction stays as it is, whatever calls follow.
pub closed_is_final :
    (c : Coordinator) (calls : List Call) (j : Str) (s : StateInfo)
    → get_state c j ≡ some s
    → s.state ≡ closed
    → get_state (run c calls) j ≡ some s
closed_is_final c calls j s h e =
    closed_Later s (get_state (run c calls) j) e (run-Later c calls j s h)
