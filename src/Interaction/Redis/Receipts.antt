-- ===== src/Interaction/Redis/Receipts.antt =====
-- Commands of any clients in any order: a receipt is written once.
use career_coordination_mcp.Prelude.{
  ℕ, ◌+◌, ◌≤◌, ◌≡◌, refl, ◌∙◌, subst, Str, lit, Bool, true, false, ◌&&◌, Option, some, none, List,
  [], ◌∷◌, if◌then◌else◌, str_eq, str_eq_iff, str_eq_refl, arith, ◌==◌, Bool-cases, Option-cases,
  inl, inr,
}
use career_coordination_mcp.Interaction.Redis.{
  Redis, Reply, reply, number, script, answer_again, move, write_transition,
}
use career_coordination_mcp.Interaction.Redis.Writes.{exists_kept, written_exists}

-- The commands of the coordinator that write: an evaluation of the script, with any arguments, and an
-- `HSET` of a creation.
pub data Command : Type 0 where
  evaluates : Str → Str → ℕ → ℕ → Command
  sets : Str → Str → Str → Command

module _ (redis : Redis) (what : Str) where
  open redis use {Store, exists, hset, exists-hset}

  abbrev pub perform : Store → Command → Store
  perform store (evaluates sk ik event new_state) =
      elim (script redis what store sk ik event new_state) [
        | none ↦ store
        | some (after, r) ↦ after
      ]
  perform store (sets key field value) = hset store key field value

  -- The command applies a transition under the key of a receipt: its script answers outcome 0.
  abbrev is_applied : Option (Store × Reply) → Bool
  is_applied none = false
  is_applied (some (after, r)) = r.outcome == 0

  abbrev pub applies_under : Str → Store → Command → Bool
  applies_under key store (evaluates sk ik event new_state) =
      str_eq ik key && is_applied (script redis what store sk ik event new_state)
  applies_under key store (sets k field value) = false

  -- How many of the commands apply a transition under the key.
  abbrev pub count_applied : Str → Store → List Command → ℕ
  count_applied key store [] = 0
  count_applied key store (command ∷ commands) =
      (if applies_under key store command then 1 else 0)
      + count_applied key (perform store command) commands

  -- What an evaluation of the script can do.
  data Scripted (store : Store) (sk ik : Str) (event new_state : ℕ) (out : Option (Store × Reply))
      : Type 0 where
    fails : out ≡ none → Scripted store sk ik event new_state out
    answers :
        (r : Reply)
        → (r.outcome == 0) ≡ false
        → out ≡ some (store, r)
        → Scripted store sk ik event new_state out
    moves :
        (n i : ℕ)
        → exists store ik ≡ false
        → out
          ≡ some (
            write_transition redis what store sk ik event new_state (i + 1),
            reply 0 n new_state (i + 1),
          )
        → Scripted store sk ik event new_state out

  module _ (store : Store) (sk ik : Str) (event new_state : ℕ) where
    Scripted-again :
        exists store sk ≡ true
        → exists store ik ≡ true
        → Scripted store sk ik event new_state (script redis what store sk ik event new_state)
    unfolding script
    Scripted-again p q = elim (Option-cases (number redis what store ik (lit "after_state"))) [
      | inl e ↦ fails (rw (p, q, script, answer_again, e) refl)
      | inr (after, e) ↦ elim (Option-cases (number redis what store ik (lit "transition_index"))) [
        | inl f ↦ fails (rw (p, q, script, answer_again, e, f) refl)
        | inr (index, f) ↦
            answers (reply 1 after after index) refl (rw (p, q, script, answer_again, e, f) refl)
      ]
    ]

    Scripted-new :
        exists store sk ≡ true
        → exists store ik ≡ false
        → Scripted store sk ik event new_state (script redis what store sk ik event new_state)
    unfolding script
    Scripted-new p q = elim (Option-cases (number redis what store sk (lit "state"))) [
      | inl e ↦ fails (rw (p, q, script, move, e) refl)
      | inr (n, e) ↦ elim (Option-cases (number redis what store sk (lit "transition_index"))) [
        | inl f ↦ fails (rw (p, q, script, move, e, f) refl)
        | inr (i, f) ↦ moves n i q (rw (p, q, script, move, e, f) refl)
      ]
    ]

    scripted : Scripted store sk ik event new_state (script redis what store sk ik event new_state)
    unfolding script
    scripted = elim (Bool-cases (exists store sk)) [
      | inr p ↦ answers (reply 3 0 0 0) refl (rw (p, script) refl)
      | inl p ↦ elim (Bool-cases (exists store ik)) [
        | inl q ↦ Scripted-again p q
        | inr q ↦ Scripted-new p q
      ]
    ]

    script_keeps :
        (j : Str)
        → exists store j ≡ true
        → exists (perform store (evaluates sk ik event new_state)) j ≡ true
    script_keeps j h = go scripted
      where
        go :
            Scripted store sk ik event new_state (script redis what store sk ik event new_state)
            → exists (perform store (evaluates sk ik event new_state)) j ≡ true
        go (fails o) = rw (o, perform) h
        go (answers r z o) = rw (o, perform) h
        go (moves n i q o) =
            rw (o, perform)
              (written_exists redis what store sk ik event new_state (i + 1) j ∙ ground (arith, h))

    script_again_refuses :
        exists store ik ≡ true → is_applied (script redis what store sk ik event new_state) ≡ false
    script_again_refuses h = go scripted
      where
        go :
            Scripted store sk ik event new_state (script redis what store sk ik event new_state)
            → is_applied (script redis what store sk ik event new_state) ≡ false
        go (fails o) = rw o refl
        go (answers r z o) = rw o z
        go (moves n i q o) = cc (q, h)

    script_writes_receipt :
        is_applied (script redis what store sk ik event new_state) ≡ true
        → exists (perform store (evaluates sk ik event new_state)) ik ≡ true
    script_writes_receipt h = go scripted
      where
        go :
            Scripted store sk ik event new_state (script redis what store sk ik event new_state)
            → exists (perform store (evaluates sk ik event new_state)) ik ≡ true
        go (fails o) = let no : false ≡ true = rw o at h in cc
        go (answers r z o) = let no : (r.outcome == 0) ≡ true = rw o at h in cc (no, z)
        go (moves n i q o) =
            rw (o, perform)
              (written_exists redis what store sk ik event new_state (i + 1) ik
                ∙ ground (arith, str_eq_refl ik))

  perform_keeps :
      (store : Store) (command : Command) (j : Str)
      → exists store j ≡ true
      → exists (perform store command) j ≡ true
  perform_keeps store (evaluates sk ik event new_state) j h =
      script_keeps store sk ik event new_state j h
  perform_keeps store (sets key field value) j h = exists_kept redis what store key field value j h

  none_again :
      (key : Str) (store : Store) (commands : List Command)
      → exists store key ≡ true
      → count_applied key store commands ≡ 0
  none_again key store [] h = refl
  none_again key store (evaluates sk ik event new_state ∷ commands) h = ground (
    arith,
    none_again key (perform store (evaluates sk ik event new_state)) commands
        (script_keeps store sk ik event new_state key h),
    script_again_refuses store sk ik event new_state,
    str_eq_iff ik key,
  )
  none_again key store (sets k field value ∷ commands) h = ground (
    arith,
    none_again key (hset store k field value) commands
        (exists_kept redis what store k field value key h),
  )

  applies_writes :
      (key : Str) (store : Store) (sk ik : Str) (event new_state : ℕ)
      → applies_under key store (evaluates sk ik event new_state) ≡ true
      → exists (perform store (evaluates sk ik event new_state)) key ≡ true
  applies_writes key store sk ik event new_state h =
      let same : ik ≡ key = (str_eq_iff ik key).0 (ground (arith, h)) in
      subst (λ k. exists (perform store (evaluates sk ik event new_state)) k ≡ true) same
        (script_writes_receipt store sk ik event new_state (ground (arith, h)))

  at_most_one : (key : Str) (store : Store) → (if exists store key then 0 else 1) ≤ 1
  at_most_one key store = ground arith

  -- Whatever commands of any clients come in whatever order, with whatever arguments, at most one script
  -- applies a transition under the key of a receipt, and none where the receipt is there from the start.
  pub applied_once :
      (key : Str) (store : Store) (commands : List Command)
      → count_applied key store commands ≤ (if exists store key then 0 else 1)
  applied_once key store [] = ground arith
  applied_once key store (sets k field value ∷ commands) = ground (
    arith,
    applied_once key (hset store k field value) commands,
    exists_kept redis what store k field value key,
  )
  applied_once key store (evaluates sk ik event new_state ∷ commands) =
      let command : Command = evaluates sk ik event new_state in
      let later = applied_once key (perform store command) commands in
      elim (Bool-cases (exists store key)) [
        | inl p ↦ rw p (omega (arith, none_again key store (command ∷ commands) p))
        | inr q ↦ elim (Bool-cases (applies_under key store command)) [
          | inr other ↦
              rw (q, other) (omega (arith, at_most_one key (perform store command), later))
          | inl applies ↦
              rw (q, applies)
                (omega (
                  arith,
                  none_again key (perform store command) commands
                      (applies_writes key store sk ik event new_state applies),
                ))
        ]
      ]
