-- ===== src/Interaction/Redis/Races.antt =====
-- Calls on Redis in between which another client is active, and calls that are sent again.
use career_coordination_mcp.Prelude.{
  ℕ, zero, suc, ◌+◌, ◌≡◌, ◌≢◌, refl, ◌∙◌, sym, ap, Str, lit, true, false, ◌++◌, str_eq, str_eq_iff,
  arith, to_string,
}
use career_coordination_mcp.Domain.Interaction.{
  InteractionState, InteractionEvent, allowed, target, draft,
}
use career_coordination_mcp.Domain.Interaction.Machine.{allowed-target}
use career_coordination_mcp.Interaction.Coordinator.{TransitionResult}
use career_coordination_mcp.Interaction.Redis.{
  Redis, Request, state_key, receipt_key, alone, apply_transition, create_interaction,
  evaluate_script, refused_result, state_to_int, event_to_int,
}
use career_coordination_mcp.Interaction.Redis.Writes.{
  keys_apart, str_eq-append, written_exists, created_holds,
}
use career_coordination_mcp.Interaction.Redis.Calls.{
  HoldsState, evaluate_moves, moved-HoldsState, moved_store, moved_result, call_evaluates,
  call_refuses,
}

-- Another client acts after the first command of a call, or after the second.
abbrev pub after_first : {A : Type 0} → (A → A) → ℕ → A → A
after_first other zero store = other store
after_first other (suc n) store = store

abbrev pub after_second : {A : Type 0} → (A → A) → ℕ → A → A
after_second other zero store = store
after_second other (suc zero) store = other store
after_second other (suc (suc n)) store = store

receipts_apart : (id k j : Str) → k ≢ j → str_eq (receipt_key id k) (receipt_key id j) ≡ false
receipts_apart id k j ne =
    str_eq-append (lit "ccmcp:interaction:") (id ++ (lit ":idem:" ++ k)) (id ++ (lit ":idem:" ++ j))
    ∙ str_eq-append id (lit ":idem:" ++ k) (lit ":idem:" ++ j)
    ∙ str_eq-append (lit ":idem:") k j
    ∙ ground (arith, str_eq_iff k j)

module _ (redis : Redis) (what : Str) where
  open redis use {Store, exists}

  -- A request for an interaction in state `s` after `n` transitions that may move it.
  pub record IsOpen (store : Store) (s : InteractionState) (n : ℕ) (req : Request) : Type 0 where
    pub held : HoldsState redis what store req.interaction_id s n
    pub free : exists store (receipt_key req.interaction_id req.idempotency_key) ≡ false
    pub event_allowed : allowed s req.event ≡ true

  open_call :
      (store : Store) (s : InteractionState) (n : ℕ) (req : Request)
      → IsOpen store s n req
      → apply_transition redis what alone store req ≡ (
        moved_store redis what store req (target req.event) (n + 1),
        moved_result redis what s (target req.event) (n + 1),
      )
  open_call store s n req o =
      call_evaluates redis what alone store req s n o.held.present o.held o.event_allowed
      ∙ evaluate_moves redis what store req (target req.event) s n o.held o.free

  -- A request that was applied and is sent again at once, with no other client active, is answered
  -- `invalid_transition` in the state that it led to; the store stays as it is.
  pub replay_is_refused :
      (store : Store) (s : InteractionState) (n : ℕ) (req : Request)
      → IsOpen store s n req
      → let (after, first) = apply_transition redis what alone store req in
        (first ≡ moved_result redis what s (target req.event) (n + 1))
        × (apply_transition redis what alone after req
            ≡ (after, refused_result (target req.event) (n + 1)))
  replay_is_refused store s n req o =
      let held = moved-HoldsState redis what store req (target req.event) (n + 1) in
      rw (open_call store s n req o) (
        refl,
        call_refuses redis what alone _ req (target req.event) (n + 1) held.present held
            (allowed-target req.event),
      )

  -- Of two requests for one interaction that its state allows both, with different fresh keys, both are
  -- applied if the second runs whole between the reading of the first and its script: the first answers
  -- that it moved the interaction on from the state that the second led to, whether or not that is a
  -- transition of the state machine.
  pub both_are_applied :
      (store : Store) (s : InteractionState) (n : ℕ) (id : Str) (e₁ e₂ : InteractionEvent)
      (k₁ k₂ : Str)
      → k₁ ≢ k₂
      → IsOpen store s n (record { interaction_id = id; event = e₁; idempotency_key = k₁ })
      → IsOpen store s n (record { interaction_id = id; event = e₂; idempotency_key = k₂ })
      → let req₁ : Request = record { interaction_id = id; event = e₁; idempotency_key = k₁ } in
        let req₂ : Request = record { interaction_id = id; event = e₂; idempotency_key = k₂ } in
        let second : Store → Store × TransitionResult =
          λ store. apply_transition redis what alone store req₂ in
        ((second store).1 ≡ moved_result redis what s (target e₂) (n + 1))
        × ((apply_transition redis what (after_second (λ store. (second store).0)) store req₁).1
            ≡ moved_result redis what (target e₂) (target e₁) (n + 1 + 1))
  both_are_applied store s n id e₁ e₂ k₁ k₂ ne o₁ o₂ =
      let req₁ : Request = record { interaction_id = id; event = e₁; idempotency_key = k₁ } in
      let req₂ : Request = record { interaction_id = id; event = e₂; idempotency_key = k₂ } in
      let moved = open_call store s n req₂ o₂ in
      let held = moved-HoldsState redis what store req₂ (target e₂) (n + 1) in
      let free : exists (moved_store redis what store req₂ (target e₂) (n + 1)) (receipt_key id k₁)
          ≡ false =
        written_exists redis what store (state_key id) (receipt_key id k₂) (event_to_int e₂)
          (state_to_int (target e₂)) (n + 1) (receipt_key id k₁)
        ∙ rw (receipts_apart id k₂ k₁ (λ e. ne (sym e)), keys_apart id k₁, o₁.free) in
      let first : (apply_transition redis what
            (after_second (λ store. (apply_transition redis what alone store req₂).0)) store req₁).1
          ≡ (evaluate_script redis what (apply_transition redis what alone store req₂).0 req₁
              (target e₁)).1 =
        ap (λ p. p.1)
          (call_evaluates redis what
            (after_second (λ store. (apply_transition redis what alone store req₂).0)) store req₁ s
            n o₁.held.present o₁.held o₁.event_allowed) in
      let next : (evaluate_script redis what (apply_transition redis what alone store req₂).0 req₁
            (target e₁)).1
          ≡ moved_result redis what (target e₂) (target e₁) (n + 1 + 1) =
        rw moved (
          rw
            (evaluate_moves redis what (moved_store redis what store req₂ (target e₂) (n + 1)) req₁
              (target e₁) (target e₂) (n + 1) held free)
            refl) in
      (ap (λ p. p.1) moved, first ∙ next)

  -- A call that creates an interaction whose key was free sets it to `draft` with no transition, whatever
  -- the other clients did after it looked.
  pub creation_overwrites :
      (other : Store → Store) (store : Store) (id contact opportunity : Str)
      → exists store (state_key id) ≡ false
      → let (after, created) =
          create_interaction redis what (after_first other) store id contact opportunity in
        (created ≡ true) × HoldsState redis what after id draft 0
  unfolding create_interaction to_string state_to_int
  creation_overwrites other store id contact opportunity h =
      let holds = created_holds redis what (other store) (state_key id) 0 0 contact opportunity in
      rw (h, create_interaction)
        (refl, record { present = holds.0; state = holds.1; index_held = holds.2 })
