-- ===== src/Storage/Repositories.antt =====
-- The in-memory repositories of atoms and of opportunities (src/storage/inmemory_atom_repository.cpp and
-- inmemory_opportunity_repository.cpp). `get` is `find`, `upsert` is `assign` at the record's identifier.
use career_coordination_mcp.Prelude.{Str, Option, List, [], ◌∷◌, if◌then◌else◌, map}
use career_coordination_mcp.Prelude.StringMap.{StringMap, find, assign}
use career_coordination_mcp.Domain.Atom.{ExperienceAtom}
use career_coordination_mcp.Domain.Opportunity.{Opportunity}

abbrev pub upsert_atom : StringMap ExperienceAtom → ExperienceAtom → StringMap ExperienceAtom
upsert_atom atoms atom = assign atoms atom.atom_id atom

abbrev pub get_atom : StringMap ExperienceAtom → Str → Option ExperienceAtom
get_atom atoms id = find atoms id

unfoldable pub list_verified : StringMap ExperienceAtom → List ExperienceAtom
list_verified [] = []
list_verified ((id, atom) ∷ atoms) =
    let rest = list_verified atoms in if atom.verified then atom ∷ rest else rest

abbrev pub list_all_atoms : StringMap ExperienceAtom → List ExperienceAtom
list_all_atoms atoms = map (λ (id, atom). atom) atoms

abbrev pub upsert_opportunity : StringMap Opportunity → Opportunity → StringMap Opportunity
upsert_opportunity opportunities opportunity =
    assign opportunities opportunity.opportunity_id opportunity

abbrev pub list_all_opportunities : StringMap Opportunity → List Opportunity
list_all_opportunities opportunities = map (λ (id, opportunity). opportunity) opportunities

abbrev pub get_opportunity : StringMap Opportunity → Str → Option Opportunity
get_opportunity opportunities id = find opportunities id
