-- ===== src/Interaction/Redis/Calls.antt =====
-- What the script and its evaluation do, by what the store holds.
use career_coordination_mcp.Prelude.{
  ℕ, ◌+◌, ◌≡◌, refl, ◌∙◌, Str, lit, true, false, some, str_eq_refl, arith, [],
}
use career_coordination_mcp.Domain.Interaction.{
  InteractionState, draft, ready, sent, responded, closed, InteractionEvent, allowed, target,
  can_transition, apply,
}
use career_coordination_mcp.Interaction.Coordinator.{applied, already_applied, TransitionResult}
use career_coordination_mcp.Interaction.Redis
use career_coordination_mcp.Interaction.Redis.{
  Redis, Request, state_key, receipt_key, state_to_int, int_to_state, event_to_int, can_apply_event,
  apply_event, number, write_transition, script, evaluate_script, answer_again, move, parse_reply,
  outcome_of, refuse, refused_result, missing_result, alone, reply, ◌>>=◌,
}
use career_coordination_mcp.Interaction.Redis.Writes.{keys_apart, written-state, written_exists}

pub int_to_state-state_to_int : (s : InteractionState) → int_to_state (state_to_int s) ≡ s
unfolding int_to_state state_to_int
int_to_state-state_to_int draft = refl
int_to_state-state_to_int ready = refl
int_to_state-state_to_int sent = refl
int_to_state-state_to_int responded = refl
int_to_state-state_to_int closed = refl

pub can_apply_event_lem :
    (s : InteractionState) (e : InteractionEvent) → can_apply_event s e ≡ allowed s e
unfolding can_apply_event can_transition
can_apply_event_lem s e = refl

pub apply_event_lem :
    (s : InteractionState) (e : InteractionEvent) → allowed s e ≡ true → apply_event s e ≡ target e
unfolding apply_event apply can_transition
apply_event_lem s e h = rw h refl

module _ (redis : Redis) (what : Str) where
  open redis use {Store, exists}

  -- The hash of an interaction holds a state and an index, those of the record.
  pub record HoldsState (store : Store) (id : Str) (s : InteractionState) (index : ℕ) : Type 0 where
    pub present : exists store (state_key id) ≡ true
    pub state : number redis what store (state_key id) (lit "state") ≡ some (state_to_int s)
    pub index_held : number redis what store (state_key id) (lit "transition_index") ≡ some index

  pub record HoldsReceipt (store : Store) (id key : Str) (s : InteractionState) (index : ℕ)
      : Type 0 where
    pub present : exists store (receipt_key id key) ≡ true
    pub after :
        number redis what store (receipt_key id key) (lit "after_state") ≡ some (state_to_int s)
    pub index_held :
        number redis what store (receipt_key id key) (lit "transition_index") ≡ some index

  -- The result of the script for an event that moves the interaction, and the store after it.
  abbrev pub moved_result : InteractionState → InteractionState → ℕ → TransitionResult
  moved_result s t index = record {
    outcome = applied;
    before_state = s;
    after_state = t;
    transition_index = index;
    error_message = [];
  }

  abbrev pub again_result : InteractionState → ℕ → TransitionResult
  again_result s index = record {
    outcome = already_applied;
    before_state = s;
    after_state = s;
    transition_index = index;
    error_message = [];
  }

  abbrev pub moved_store : Store → Request → InteractionState → ℕ → Store
  moved_store store req t index =
      write_transition redis what store (state_key req.interaction_id)
        (receipt_key req.interaction_id req.idempotency_key) (event_to_int req.event)
        (state_to_int t) index

  module _ (store : Store) (sk ik : Str) (event new_state : ℕ) where
    script_again :
        (u i : ℕ)
        → exists store sk ≡ true
        → exists store ik ≡ true
        → number redis what store ik (lit "after_state") ≡ some u
        → number redis what store ik (lit "transition_index") ≡ some i
        → script redis what store sk ik event new_state ≡ some (store, reply 1 u u i)
    unfolding script
    script_again u i p q a b = rw (p, q, script, answer_again, a, b) refl

    script_moves :
        (n i : ℕ)
        → exists store sk ≡ true
        → exists store ik ≡ false
        → number redis what store sk (lit "state") ≡ some n
        → number redis what store sk (lit "transition_index") ≡ some i
        → script redis what store sk ik event new_state
          ≡ some (
            write_transition redis what store sk ik event new_state (i + 1),
            reply 0 n new_state (i + 1),
          )
    unfolding script
    script_moves n i p q a b = rw (p, q, script, move, a, b) refl

  module _ (store : Store) (req : Request) (t : InteractionState) where
    pub evaluate_again :
        (s u : InteractionState) (n i : ℕ)
        → HoldsState store req.interaction_id s n
        → HoldsReceipt store req.interaction_id req.idempotency_key u i
        → evaluate_script redis what store req t ≡ (store, again_result u i)
    unfolding evaluate_script parse_reply outcome_of
    evaluate_again s u n i h r =
        rw
          (
            evaluate_script,
            script_again store (state_key req.interaction_id)
                (receipt_key req.interaction_id req.idempotency_key) (event_to_int req.event)
                (state_to_int t) (state_to_int u) i h.present r.present r.after r.index_held,
            int_to_state-state_to_int,
          )
          refl

    pub evaluate_moves :
        (s : InteractionState) (n : ℕ)
        → HoldsState store req.interaction_id s n
        → exists store (receipt_key req.interaction_id req.idempotency_key) ≡ false
        → evaluate_script redis what store req t
          ≡ (moved_store store req t (n + 1), moved_result s t (n + 1))
    unfolding evaluate_script parse_reply outcome_of
    evaluate_moves s n h r =
        rw
          (
            evaluate_script,
            script_moves store (state_key req.interaction_id)
                (receipt_key req.interaction_id req.idempotency_key) (event_to_int req.event)
                (state_to_int t) (state_to_int s) n h.present r h.state h.index_held,
            int_to_state-state_to_int s,
            int_to_state-state_to_int t,
          )
          refl

    -- What the script leaves of the interaction, and of the receipt.
    pub moved-HoldsState : (n : ℕ) → HoldsState (moved_store store req t n) req.interaction_id t n
    moved-HoldsState n =
        let sk = state_key req.interaction_id in
        let ik = receipt_key req.interaction_id req.idempotency_key in
        let held =
          written-state redis what store sk ik (event_to_int req.event) (state_to_int t) n
            (keys_apart req.interaction_id req.idempotency_key) in
        let there =
          written_exists redis what store sk ik (event_to_int req.event) (state_to_int t) n sk in
        record {
          present = there ∙ ground (arith, str_eq_refl sk);
          state = held.0;
          index_held = held.1;
        }

    pub moved-HoldsReceipt :
        (n : ℕ)
        → HoldsReceipt (moved_store store req t n) req.interaction_id req.idempotency_key t n
    moved-HoldsReceipt n =
        let sk = state_key req.interaction_id in
        let ik = receipt_key req.interaction_id req.idempotency_key in
        let held =
          written-state redis what store sk ik (event_to_int req.event) (state_to_int t) n
            (keys_apart req.interaction_id req.idempotency_key) in
        let there =
          written_exists redis what store sk ik (event_to_int req.event) (state_to_int t) n ik in
        record {
          present = there ∙ ground (arith, str_eq_refl ik);
          after = held.2;
          index_held = held.3;
        }

  -- A call whose commands find the interaction, where the event is allowed in the state that it reads,
  -- is the script with the state of the event.
  pub call_evaluates :
      (between : ℕ → Store → Store) (store : Store) (req : Request) (s : InteractionState) (n : ℕ)
      → exists store (state_key req.interaction_id) ≡ true
      → HoldsState (between 0 store) req.interaction_id s n
      → allowed s req.event ≡ true
      → Redis.apply_transition redis what between store req
        ≡ evaluate_script redis what (between 1 (between 0 store)) req (target req.event)
  unfolding Redis.apply_transition
  call_evaluates between store req s n p h a =
      rw
        (
          p,
          Redis.apply_transition,
          h.state,
          int_to_state-state_to_int s,
          can_apply_event_lem s req.event,
          a,
        )
        refl

  -- Where the event is not allowed in the state that it reads, it is refused, and nothing is written.
  pub call_refuses :
      (between : ℕ → Store → Store) (store : Store) (req : Request) (s : InteractionState) (n : ℕ)
      → exists store (state_key req.interaction_id) ≡ true
      → HoldsState (between 0 store) req.interaction_id s n
      → allowed s req.event ≡ false
      → Redis.apply_transition redis what between store req ≡ (between 0 store, refused_result s n)
  unfolding Redis.apply_transition
  call_refuses between store req s n p h a =
      rw
        (
          p,
          Redis.apply_transition,
          h.state,
          int_to_state-state_to_int s,
          can_apply_event_lem s req.event,
          a,
          refuse,
          h.index_held,
          int_to_state-state_to_int s,
        )
        refl

  pub call_misses :
      (between : ℕ → Store → Store) (store : Store) (req : Request)
      → exists store (state_key req.interaction_id) ≡ false
      → Redis.apply_transition redis what between store req
        ≡ (store, missing_result req.interaction_id)
  unfolding Redis.apply_transition
  call_misses between store req p = rw (p, Redis.apply_transition) refl
