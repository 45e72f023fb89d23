-- ===== src/Interaction/Redis/Mirror.antt =====
-- A call on Redis, with no other client active, beside the same call on the in-memory coordinator.
use career_coordination_mcp.Prelude.{
  ◌+◌, ◌≡◌, refl, Str, Bool, false, not, Option, none, some, str_eq_refl, arith,
}
use career_coordination_mcp.Prelude.StringMap.{find, find-assign}
use career_coordination_mcp.Domain.Interaction.{InteractionEvent, allowed, target}
use career_coordination_mcp.Interaction.Coordinator
use career_coordination_mcp.Interaction.Coordinator.{
  applied, invalid_transition, already_applied, TransitionResult, InteractionRecord,
  IdempotencyReceipt, Coordinator, idem_key,
}
use career_coordination_mcp.Interaction.Coordinator.Laws.{
  Ending, missing, replayed, refused, commits, ending,
}
use career_coordination_mcp.Interaction.Redis
use career_coordination_mcp.Interaction.Redis.{Redis, Request, state_key, receipt_key, alone}
use career_coordination_mcp.Interaction.Redis.Calls.{
  HoldsState, HoldsReceipt, evaluate_again, evaluate_moves, moved-HoldsState, moved-HoldsReceipt,
  call_evaluates, call_refuses, call_misses,
}

module _ (redis : Redis) (what : Str) where
  open redis use {Store, exists}

  abbrev pub HeldState : Store → Str → Option InteractionRecord → Type 0
  HeldState store id none = exists store (state_key id) ≡ false
  HeldState store id (some r) =
      HoldsState redis what store id r.interaction.state r.transition_index

  abbrev pub HeldReceipt : Store → Str → Str → Option IdempotencyReceipt → Type 0
  HeldReceipt store id key none = exists store (receipt_key id key) ≡ false
  HeldReceipt store id key (some r) =
      HoldsReceipt redis what store id key r.after_state r.transition_index

  -- The store has of an interaction and of one of its keys what the in-memory coordinator has.
  pub record Mirrors (store : Store) (c : Coordinator) (id key : Str) : Type 0 where
    pub states : HeldState store id (find c.interactions id)
    pub receipts : HeldReceipt store id key (find c.idempotency_receipts (idem_key id key))

  -- A receipt whose event is no longer allowed: the call is a replay that Redis does not look up.
  abbrev hidden : InteractionEvent → Option InteractionRecord → Option IdempotencyReceipt → Bool
  hidden event (some r) (some receipt) = not (allowed r.interaction.state event)
  hidden event _ _ = false

  abbrev pub is_hidden_replay : Coordinator → Request → Bool
  is_hidden_replay c req =
      hidden req.event (find c.interactions req.interaction_id)
        (find c.idempotency_receipts (idem_key req.interaction_id req.idempotency_key))

  abbrev on_memory : Coordinator → Request → Coordinator × TransitionResult
  on_memory c req = Coordinator.apply_transition c req.interaction_id req.event req.idempotency_key

  abbrev pub Agrees :
      Coordinator → Request → Store × TransitionResult → Coordinator × TransitionResult → Type 0
  Agrees c req (store, result) (after, expected) =
      (result ≡ expected) × Mirrors store after req.interaction_id req.idempotency_key

  -- With no other client active, a call on Redis answers what the in-memory coordinator answers from the
  -- same interaction and receipt, and leaves the same interaction and receipt, unless it is a replay of
  -- an applied call whose event is no longer allowed.
  pub same_as_memory :
      (c : Coordinator) (store : Store) (req : Request)
      → Mirrors store c req.interaction_id req.idempotency_key
      → is_hidden_replay c req ≡ false
      → Agrees c req (Redis.apply_transition redis what alone store req) (on_memory c req)
  same_as_memory c store req m shown =
      go (ending c req.interaction_id req.event req.idempotency_key)
    where
      go :
          Ending c req.interaction_id req.event req.idempotency_key (on_memory c req)
          → Agrees c req (Redis.apply_transition redis what alone store req) (on_memory c req)
      go (missing f o) =
          let absent : HeldState store req.interaction_id none = rw f at m.states in
          rw (o, call_misses redis what alone store req absent) (refl, m)
      go (replayed r rc f g o) =
          let held : HeldState store req.interaction_id (some r) = rw f at m.states in
          let receipt : HeldReceipt store req.interaction_id req.idempotency_key (some rc) =
            rw g at m.receipts in
          let seen : not (allowed r.interaction.state req.event) ≡ false = rw (f, g) at shown in
          rw
            (
              o,
              call_evaluates redis what alone store req r.interaction.state r.transition_index
                  held.present held (ground (arith, seen)),
              evaluate_again redis what store req (target req.event) r.interaction.state
                  rc.after_state r.transition_index rc.transition_index held receipt,
            )
            (refl, m)
      go (refused r f g a o) =
          let held : HeldState store req.interaction_id (some r) = rw f at m.states in
          rw
            (
              o,
              call_refuses redis what alone store req r.interaction.state r.transition_index
                  held.present held a,
            )
            (refl, m)
      go (commits r f g a o) =
          let held : HeldState store req.interaction_id (some r) = rw f at m.states in
          let free : HeldReceipt store req.interaction_id req.idempotency_key none =
            rw g at m.receipts in
          rw
            (
              o,
              call_evaluates redis what alone store req r.interaction.state r.transition_index
                  held.present held a,
              evaluate_moves redis what store req (target req.event) r.interaction.state
                  r.transition_index held free,
            )
            (
              refl,
              record {
                states =
                    rw (find-assign, str_eq_refl)
                      (moved-HoldsState redis what store req (target req.event)
                        (r.transition_index + 1));
                receipts =
                    rw (find-assign, str_eq_refl)
                      (moved-HoldsReceipt redis what store req (target req.event)
                        (r.transition_index + 1));
              },
            )
