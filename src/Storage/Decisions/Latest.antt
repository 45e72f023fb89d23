-- ===== src/Storage/Decisions/Latest.antt =====
-- The store has the latest record of each identifier, and lists those of a trace in order.
use career_coordination_mcp.Prelude.{
  ◌≡◌, refl, ◌∙◌, sym, ap, Str, true, Option, none, some, List, [], ◌∷◌, if◌then◌else◌, str_eq,
  str_eq_iff, str_lt_irrefl, str_lt, str_lt_total, arith, Bool-cases, inl, inr,
}
use career_coordination_mcp.Prelude.Sorting.{sort_by, sort_insert}
use career_coordination_mcp.Storage.Decisions.{
  DecisionRecord, upsert, get, of_trace, decision_less, list_by_trace, upsert_all,
}

pub get-upsert :
    (records : List DecisionRecord) (r : DecisionRecord) (id : Str)
    → get (upsert records r) id ≡ (if str_eq r.decision_id id then some r else get records id)
unfolding get upsert
get-upsert [] r id = refl
get-upsert (existing ∷ records) r id = ground (
  arith,
  get-upsert records r id,
  str_eq_iff existing.decision_id r.decision_id,
  str_eq_iff r.decision_id id,
  str_eq_iff existing.decision_id id,
)

-- The last record of a sequence with an identifier, or what was there before.
abbrev pub latest : Option DecisionRecord → List DecisionRecord → Str → Option DecisionRecord
latest before [] id = before
latest before (r ∷ rs) id = latest (if str_eq r.decision_id id then some r else before) rs id

get-upsert_all :
    (records rs : List DecisionRecord) (id : Str)
    → get (upsert_all records rs) id ≡ latest (get records id) rs id
unfolding upsert_all
get-upsert_all records [] id = refl
get-upsert_all records (r ∷ rs) id =
    get-upsert_all (upsert records r) rs id ∙ ap (λ o. latest o rs id) (get-upsert records r id)

-- No identifier occurs twice.
abbrev IsUnique : List DecisionRecord → Type 0
IsUnique [] = Unit
IsUnique (r ∷ records) = (get records r.decision_id ≡ none) × IsUnique records

upsert-IsUnique :
    (records : List DecisionRecord) (r : DecisionRecord)
    → IsUnique records
    → IsUnique (upsert records r)
unfolding upsert get
upsert-IsUnique [] r u = (refl, tt)
upsert-IsUnique (existing ∷ records) r u =
    elim (Bool-cases (str_eq existing.decision_id r.decision_id)) [
      | inl same ↦
          let e = (str_eq_iff existing.decision_id r.decision_id).0 same in
          rw (same, upsert) (ap (get records) (sym e) ∙ u.0, u.1)
      | inr other ↦
          rw (other, upsert)
            (
              get-upsert records r existing.decision_id
                  ∙ ground (
                    arith,
                    str_eq_iff r.decision_id existing.decision_id,
                    str_eq_iff existing.decision_id r.decision_id,
                    u.0,
                  ),
              upsert-IsUnique records r u.1,
            )
    ]

upsert_all-IsUnique :
    (records rs : List DecisionRecord) → IsUnique records → IsUnique (upsert_all records rs)
unfolding upsert_all
upsert_all-IsUnique records [] u = u
upsert_all-IsUnique records (r ∷ rs) u =
    upsert_all-IsUnique (upsert records r) rs (upsert-IsUnique records r u)

-- A record, where it is of the trace.
abbrev pub if_of_trace : Str → Option DecisionRecord → Option DecisionRecord
if_of_trace trace_id none = none
if_of_trace trace_id (some r) = if str_eq r.trace_id trace_id then some r else none

get-of_trace :
    (records : List DecisionRecord) (trace_id id : Str)
    → IsUnique records
    → get (of_trace records trace_id) id ≡ if_of_trace trace_id (get records id)
unfolding get of_trace
get-of_trace [] trace_id id u = refl
get-of_trace (r ∷ records) trace_id id u =
    ground (arith, get-of_trace records trace_id id u.1, u.0, str_eq_iff r.decision_id id)

get-sort_insert :
    (r : DecisionRecord) (records : List DecisionRecord) (id : Str)
    → get (sort_insert decision_less r records) id
      ≡ (if str_eq r.decision_id id then some r else get records id)
unfolding get sort_insert decision_less
get-sort_insert r [] id = refl
get-sort_insert r (other ∷ records) id = ground (
  arith,
  get-sort_insert r records id,
  str_eq_iff r.decision_id id,
  str_eq_iff other.decision_id id,
  str_lt_irrefl r.decision_id,
)

get-sort_by :
    (records : List DecisionRecord) (id : Str)
    → get (sort_by decision_less records) id ≡ get records id
unfolding get sort_by
get-sort_by [] id = refl
get-sort_by (r ∷ records) id =
    get-sort_insert r (sort_by decision_less records) id ∙ ground (arith, get-sort_by records id)

-- Each identifier is less than the next, in the order of texts.
abbrev Heads : DecisionRecord → List DecisionRecord → Type 0
Heads a [] = Unit
Heads a (b ∷ records) = str_lt a.decision_id b.decision_id ≡ true

abbrev pub IsAscending : List DecisionRecord → Type 0
IsAscending [] = Unit
IsAscending (a ∷ records) = Heads a records × IsAscending records

sort_insert-Heads :
    (w r : DecisionRecord) (records : List DecisionRecord)
    → str_lt w.decision_id r.decision_id ≡ true
    → Heads w records
    → Heads w (sort_insert decision_less r records)
unfolding sort_insert
sort_insert-Heads w r [] h a = h
sort_insert-Heads w r (b ∷ records) h a = elim (Bool-cases (decision_less b r)) [
  | inl before ↦ rw before a
  | inr behind ↦ rw behind h
]

sort_insert-IsAscending :
    (r : DecisionRecord) (records : List DecisionRecord)
    → get records r.decision_id ≡ none
    → IsAscending records
    → IsAscending (sort_insert decision_less r records)
unfolding sort_insert get decision_less
sort_insert-IsAscending r [] n a = (tt, tt)
sort_insert-IsAscending r (b ∷ records) n a =
    elim (Bool-cases (str_lt b.decision_id r.decision_id)) [
      | inl before ↦ rw before (
        sort_insert-Heads b r records before a.0,
        sort_insert-IsAscending r records (ground (arith, n)) a.1,
      )
      | inr behind ↦ rw behind (
        ground (
          arith,
          n,
          behind,
          str_eq_iff b.decision_id r.decision_id,
          str_lt_total b.decision_id r.decision_id,
        ),
        a,
      )
    ]

of_trace-IsUnique :
    (records : List DecisionRecord) (trace_id : Str)
    → IsUnique records
    → IsUnique (of_trace records trace_id)
unfolding of_trace
of_trace-IsUnique [] trace_id u = tt
of_trace-IsUnique (r ∷ records) trace_id u = elim (Bool-cases (str_eq r.trace_id trace_id)) [
  | inr other ↦ rw other (of_trace-IsUnique records trace_id u.1)
  | inl same ↦ rw same (
    get-of_trace records trace_id r.decision_id u.1 ∙ rw u.0 refl,
    of_trace-IsUnique records trace_id u.1,
  )
]

sort_by-IsAscending :
    (records : List DecisionRecord) → IsUnique records → IsAscending (sort_by decision_less records)
unfolding sort_by
sort_by-IsAscending [] u = tt
sort_by-IsAscending (r ∷ records) u =
    sort_insert-IsAscending r (sort_by decision_less records)
      (get-sort_by records r.decision_id ∙ u.0) (sort_by-IsAscending records u.1)

-- After any calls of `upsert` on an empty store, `get` returns the record that was stored last under
-- an identifier, and `list_by_trace` lists, in strictly ascending order of identifiers, exactly those
-- of these latest records that are of the trace.
pub decisions_latest :
    (rs : List DecisionRecord) (trace_id : Str)
    → ((id : Str) → get (upsert_all [] rs) id ≡ latest none rs id)
      × IsAscending (list_by_trace (upsert_all [] rs) trace_id)
      × ((id : Str)
          → get (list_by_trace (upsert_all [] rs) trace_id) id
            ≡ if_of_trace trace_id (latest none rs id))
unfolding list_by_trace get
decisions_latest rs trace_id = (
  (λ id. get-upsert_all [] rs id),
  sort_by-IsAscending (of_trace (upsert_all [] rs) trace_id)
      (of_trace-IsUnique (upsert_all [] rs) trace_id (upsert_all-IsUnique [] rs tt)),
  λ id.
      get-sort_by (of_trace (upsert_all [] rs) trace_id) id
      ∙ (get-of_trace (upsert_all [] rs) trace_id id (upsert_all-IsUnique [] rs tt)
          ∙ ap (if_of_trace trace_id) (get-upsert_all [] rs id)),
)
