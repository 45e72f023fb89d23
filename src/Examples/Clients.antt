-- ===== src/Examples/Clients.antt =====
-- The coordinator on Redis with one interaction.
use career_coordination_mcp.Prelude.{
  ◌≤◌, ◌≡◌, refl, Str, lit, str_eq, str_lt, str_eq_iff, false, List, [], ◌∷◌,
}
use career_coordination_mcp.Prelude.StringMap.{find, assign}
use career_coordination_mcp.Domain.Interaction.{draft, ready, prepare, allowed, target}
use career_coordination_mcp.Interaction.Coordinator.{Coordinator, empty, applied, TransitionResult}
use career_coordination_mcp.Interaction.Coordinator
use career_coordination_mcp.Interaction.Redis.{
  Request, alone, state_key, receipt_key, apply_transition, create_interaction, refused_result,
}
use career_coordination_mcp.Interaction.Redis.Calls.{moved_result}
use career_coordination_mcp.Interaction.Redis.Mirror.{Agrees, same_as_memory}
use career_coordination_mcp.Interaction.Redis.Races.{
  IsOpen, after_first, after_second, replay_is_refused, both_are_applied, creation_overwrites,
}
use career_coordination_mcp.Interaction.Redis.Receipts.{
  Command, evaluates, count_applied, applied_once,
}
use career_coordination_mcp.Examples.KeySpace.{Space, key_space}

abbrev what : Str
what = lit "timeout"

abbrev a : Str
a = lit "a"

abbrev k₁ : Str
k₁ = lit "k1"

abbrev k₂ : Str
k₂ = lit "k2"

-- An interaction that was created while another client did the same.
abbrev again : Space → Space
again space = (create_interaction key_space what alone space a (lit "ct") (lit "op")).0

abbrev space : Space
space = (create_interaction key_space what (after_first again) [] a (lit "ct") (lit "op")).0

is_open :
    (k : Str)
    → str_eq (state_key a) (receipt_key a k) ≡ false
    → IsOpen key_space what space draft 0
        (record { interaction_id = a; event = prepare; idempotency_key = k })
unfolding create_interaction find assign str_eq str_lt allowed
is_open k h = record {
  held = (creation_overwrites key_space what again [] a (lit "ct") (lit "op") refl).1;
  free = refl;
  event_allowed = refl;
}

abbrev request : Request
request = record { interaction_id = a; event = prepare; idempotency_key = k₁ }

replay_is_refused_example :
    let (after, first) = apply_transition key_space what alone space request in
    (first ≡ moved_result key_space what draft ready 1)
    × (apply_transition key_space what alone after request ≡ (after, refused_result ready 1))
unfolding target str_eq
replay_is_refused_example = replay_is_refused key_space what space draft 0 request (is_open k₁ refl)

both_are_applied_example :
    let second : Space → Space × TransitionResult = λ store.
      apply_transition key_space what alone store
        (record { interaction_id = a; event = prepare; idempotency_key = k₂ }) in
    ((second space).1 ≡ moved_result key_space what draft ready 1)
    × ((apply_transition key_space what (after_second (λ store. (second store).0)) space request).1
        ≡ moved_result key_space what ready ready 2)
unfolding target str_eq
both_are_applied_example =
    both_are_applied key_space what space draft 0 a prepare prepare k₁ k₂
      (λ e. cc ((str_eq_iff k₁ k₂).1 e)) (is_open k₁ refl) (is_open k₂ refl)

abbrev commands : List Command
commands =
    evaluates (state_key a) (receipt_key a k₁) 0 1
    ∷ evaluates (state_key a) (receipt_key a k₁) 3 4
    ∷ []

applied_once_example : count_applied key_space what (receipt_key a k₁) space commands ≤ 1
unfolding create_interaction find assign str_eq str_lt
applied_once_example = applied_once key_space what (receipt_key a k₁) space commands

-- The same interaction in memory.
abbrev memory : Coordinator
memory = (Coordinator.create_interaction empty a (lit "ct") (lit "op")).0

same_as_memory_example :
    Agrees key_space what memory request
      (apply_transition key_space what alone space request)
      (Coordinator.apply_transition memory a prepare k₁)
unfolding Coordinator.create_interaction create_interaction find assign str_eq str_lt
same_as_memory_example =
    same_as_memory key_space what memory space request
      (record {
        states = (creation_overwrites key_space what again [] a (lit "ct") (lit "op") refl).1;
        receipts = refl;
      })
      refl
