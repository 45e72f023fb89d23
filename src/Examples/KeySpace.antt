-- ===== src/Examples/KeySpace.antt =====
-- A key space of Redis as a map of maps, for examples.
use career_coordination_mcp.Prelude.{
  ◌≡◌, refl, Str, Bool, not, ◌||◌, ◌&&◌, Option, none, some, [], if◌then◌else◌, str_eq, str_eq_iff,
  is_none, arith, Bool-cases, inl, inr,
}
use career_coordination_mcp.Prelude.StringMap.{StringMap, find, assign, find-assign}
use career_coordination_mcp.Interaction.Redis.{Redis}

abbrev pub Space : Type 0
Space = StringMap (StringMap Str)

abbrev fields_of : Option (StringMap Str) → StringMap Str
fields_of none = []
fields_of (some fields) = fields

abbrev exists : Space → Str → Bool
exists space key = not (is_none (find space key))

abbrev hget : Space → Str → Str → Option Str
hget space key field = find (fields_of (find space key)) field

abbrev hset : Space → Str → Str → Str → Space
hset space key field value = assign space key (assign (fields_of (find space key)) field value)

pub exists-hset :
    (space : Space) (key field value j : Str)
    → exists (hset space key field value) j ≡ (str_eq key j || exists space j)
exists-hset space key field value j = rw find-assign (ground arith)

pub hget-hset :
    (space : Space) (key field value j f : Str)
    → hget (hset space key field value) j f
      ≡ (if str_eq key j && str_eq field f then some value else hget space j f)
hget-hset space key field value j f = elim (Bool-cases (str_eq key j)) [
  | inr other ↦ rw (find-assign, other) refl
  | inl same ↦
      let e : key ≡ j = (str_eq_iff key j).0 same in
      rw (find-assign, same, ← e) (find-assign (fields_of (find space key)) field f value)
]

abbrev pub key_space : Redis
key_space = record {
  Store = Space;
  exists = exists;
  hget = hget;
  hset = hset;
  exists-hset = exists-hset;
  hget-hset = hget-hset;
}
