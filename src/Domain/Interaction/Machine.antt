-- ===== src/Domain/Interaction/Machine.antt =====
-- The state machine as a step relation, its rank, and what `apply` does to it.
use career_coordination_mcp.Prelude.{
  ℕ, suc, ◌+◌, ◌≤◌, ◌<◌, ◌≡◌, refl, ◌↔◌, true, false, arith, inl, inr, Bool-cases,
}
use career_coordination_mcp.Domain.Interaction.{
  InteractionState, draft, ready, sent, responded, closed, InteractionEvent, prepare, send,
  receive_reply, close, Interaction, allowed, target, can_transition, apply,
}

-- The transitions that the state machine allows.
pub data Step : InteractionState → InteractionEvent → InteractionState → Type 0 where
  prepares : Step draft prepare ready
  sends : Step ready send sent
  replies : Step sent receive_reply responded
  closes_draft : Step draft close closed
  closes_ready : Step ready close closed
  closes_sent : Step sent close closed
  closes_responded : Step responded close closed

-- A run of the machine in a number of steps.
pub data Run (s : InteractionState) : ℕ → InteractionState → Type 0 where
  here : Run s 0 s
  next :
      {n : ℕ} {t u : InteractionState} (e : InteractionEvent)
      → Run s n t
      → Step t e u
      → Run s (suc n) u

-- How far along its life an interaction is.
abbrev pub rank : InteractionState → ℕ
rank draft = 0
rank ready = 1
rank sent = 2
rank responded = 3
rank closed = 4

pub Step-rank : {s t : InteractionState} {e : InteractionEvent} → Step s e t → rank s < rank t
Step-rank prepares = omega arith
Step-rank sends = omega arith
Step-rank replies = omega arith
Step-rank closes_draft = omega arith
Step-rank closes_ready = omega arith
Step-rank closes_sent = omega arith
Step-rank closes_responded = omega arith

-- Every step raises the rank, so no interaction makes more than four transitions.
pub Run-rank : {s t : InteractionState} {n : ℕ} → Run s n t → rank s + n ≤ rank t
Run-rank here = omega arith
Run-rank (next e r st) = omega (arith, Run-rank r, Step-rank st)

pub rank-le : (s : InteractionState) → rank s ≤ 4
rank-le draft = omega arith
rank-le ready = omega arith
rank-le sent = omega arith
rank-le responded = omega arith
rank-le closed = omega arith

pub closed_of_rank : (s : InteractionState) → 4 ≤ rank s → s ≡ closed
closed_of_rank closed h = refl
closed_of_rank draft h = absurd (omega arith)
closed_of_rank ready h = absurd (omega arith)
closed_of_rank sent h = absurd (omega arith)
closed_of_rank responded h = absurd (omega arith)

pub allowed→Step :
    (s : InteractionState) (e : InteractionEvent) → allowed s e ≡ true → Step s e (target e)
unfolding allowed target
allowed→Step draft prepare h = prepares
allowed→Step draft close h = closes_draft
allowed→Step ready send h = sends
allowed→Step ready close h = closes_ready
allowed→Step sent receive_reply h = replies
allowed→Step sent close h = closes_sent
allowed→Step responded close h = closes_responded
allowed→Step _ _ h = cc

pub Step→allowed :
    {s t : InteractionState} {e : InteractionEvent}
    → Step s e t
    → (allowed s e ≡ true) × (t ≡ target e)
unfolding allowed target
Step→allowed prepares = (refl, refl)
Step→allowed sends = (refl, refl)
Step→allowed replies = (refl, refl)
Step→allowed closes_draft = (refl, refl)
Step→allowed closes_ready = (refl, refl)
Step→allowed closes_sent = (refl, refl)
Step→allowed closes_responded = (refl, refl)

-- No event is allowed again in the state that it leads to.
pub allowed-target : (e : InteractionEvent) → allowed (target e) e ≡ false
unfolding allowed target
allowed-target prepare = refl
allowed-target send = refl
allowed-target receive_reply = refl
allowed-target close = refl

-- `apply` reports success exactly for the transitions of the machine; it then moves to the state of
-- that transition and keeps the identifiers, and otherwise it changes nothing.
pub apply_lem :
    (i : Interaction) (e : InteractionEvent)
    → (((apply i e).1 ≡ true) ↔ Step i.state e (apply i e).0.state)
      × ((apply i e).1 ≡ false → (apply i e).0 ≡ i)
      × ((apply i e).0.interaction_id ≡ i.interaction_id)
      × ((apply i e).0.contact_id ≡ i.contact_id)
      × ((apply i e).0.opportunity_id ≡ i.opportunity_id)
unfolding apply can_transition
apply_lem i e = elim (Bool-cases (allowed i.state e)) [
  | inl h ↦
      rw (h, apply, can_transition)
        (((λ _. allowed→Step i.state e h), λ _. refl), (λ k. cc), refl, refl, refl)
  | inr h ↦
      rw (h, apply, can_transition)
        (((λ k. cc), λ st. cc (h, (Step→allowed st).0)), (λ _. refl), refl, refl, refl)
]
