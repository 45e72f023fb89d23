-- ===== src/Core/Normalization/Tags.antt =====
-- Normalized tags: tokens in strictly ascending order.
use career_coordination_mcp.Prelude.{
  ◌≡◌, refl, ap, ◌∙◌, Str, List, [], ◌∷◌, ◌++◌, All, All-append, ◌↔◌, subst,
}
use career_coordination_mcp.Prelude.StringSet.{
  contains, sort, unique, IsAscending, unique-sort-IsAscending, contains-sort, contains-unique,
}
use career_coordination_mcp.Prelude.StringSet.Canonical.{unique-sort_of_IsAscending}
use career_coordination_mcp.Prelude.StringSet.Members.{All-unique-sort}
use career_coordination_mcp.Core.Normalization.{
  tokenize_ascii, default_min_length, tokenize_all, normalize_tags,
}
use career_coordination_mcp.Core.Normalization.Tokens.{
  IsToken, tokenize_ascii-IsToken, tokenize_ascii_of_IsToken,
}

-- Tokens of at least two bytes, in strictly ascending order: so each once.
pub record IsNormalized (tags : List Str) : Type 0 where
  pub tokens : All (IsToken default_min_length) tags
  pub ascending : IsAscending tags

tokenize_all-IsToken : (tags : List Str) → All (IsToken default_min_length) (tokenize_all tags)
unfolding tokenize_all
tokenize_all-IsToken [] = tt
tokenize_all-IsToken (tag ∷ tags) =
    All-append (IsToken default_min_length) (tokenize_ascii tag default_min_length)
      (tokenize_all tags) (tokenize_ascii-IsToken tag default_min_length)
      (tokenize_all-IsToken tags)

tokenize_all_of_IsToken :
    (tags : List Str) → All (IsToken default_min_length) tags → tokenize_all tags ≡ tags
unfolding tokenize_all
tokenize_all_of_IsToken [] h = refl
tokenize_all_of_IsToken (tag ∷ tags) h =
    ap (λ t. t ++ tokenize_all tags) (tokenize_ascii_of_IsToken default_min_length tag h.0)
    ∙ ap (◌∷◌ tag) (tokenize_all_of_IsToken tags h.1)

pub normalize_tags-IsNormalized : (tags : List Str) → IsNormalized (normalize_tags tags)
unfolding normalize_tags
normalize_tags-IsNormalized tags = record {
  tokens =
      All-unique-sort (IsToken default_min_length) (tokenize_all tags) (tokenize_all-IsToken tags);
  ascending = unique-sort-IsAscending (tokenize_all tags);
}

pub normalize_tags_of_IsNormalized :
    (tags : List Str) → IsNormalized tags → normalize_tags tags ≡ tags
unfolding normalize_tags
normalize_tags_of_IsNormalized tags h =
    ap (λ t. unique (sort t)) (tokenize_all_of_IsToken tags h.tokens)
    ∙ unique-sort_of_IsAscending tags h.ascending

-- A text is a normalized tag exactly when it is a token of one of the tags; and the tags that
-- normalization leaves as they are, are the normalized ones.
pub normalize_tags_lem :
    (tags : List Str)
    → ((z : Str) → contains (normalize_tags tags) z ≡ contains (tokenize_all tags) z)
      × ((normalize_tags tags ≡ tags) ↔ IsNormalized tags)
unfolding normalize_tags
normalize_tags_lem tags = (
  (λ z. contains-unique (sort (tokenize_all tags)) z ∙ contains-sort (tokenize_all tags) z),
  (
    (λ e. subst IsNormalized e (normalize_tags-IsNormalized tags)),
    normalize_tags_of_IsNormalized tags,
  ),
)
