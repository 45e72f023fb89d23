-- ===== src/Tokenization/Lexical.antt =====
-- The deterministic lexical tokenizer (src/tokenization/deterministic_lexical_tokenizer.cpp).
pub mod Passes
use career_coordination_mcp.Prelude.{
  Str, lit, Bool, not, Option, none, List, [], ◌∷◌, if◌then◌else◌,
}
use career_coordination_mcp.Prelude.StringMap.{assign}
use career_coordination_mcp.Prelude.StringSet.{contains, insert_all}
use career_coordination_mcp.Core.Normalization.{tokenize_ascii, default_min_length}
use career_coordination_mcp.Domain.TokenIr.{ResumeTokenIr, deterministic_lexical}

abbrev pub stop_words : List Str
stop_words =
    lit "a"
    ∷ lit "an"
    ∷ lit "the"
    ∷ lit "about"
    ∷ lit "above"
    ∷ lit "across"
    ∷ lit "after"
    ∷ lit "against"
    ∷ lit "along"
    ∷ lit "among"
    ∷ lit "around"
    ∷ lit "at"
    ∷ lit "before"
    ∷ lit "behind"
    ∷ lit "below"
    ∷ lit "beneath"
    ∷ lit "beside"
    ∷ lit "between"
    ∷ lit "beyond"
    ∷ lit "by"
    ∷ lit "down"
    ∷ lit "during"
    ∷ lit "except"
    ∷ lit "for"
    ∷ lit "from"
    ∷ lit "in"
    ∷ lit "inside"
    ∷ lit "into"
    ∷ lit "near"
    ∷ lit "of"
    ∷ lit "off"
    ∷ lit "on"
    ∷ lit "onto"
    ∷ lit "out"
    ∷ lit "outside"
    ∷ lit "over"
    ∷ lit "past"
    ∷ lit "since"
    ∷ lit "through"
    ∷ lit "throughout"
    ∷ lit "to"
    ∷ lit "toward"
    ∷ lit "under"
    ∷ lit "underneath"
    ∷ lit "until"
    ∷ lit "up"
    ∷ lit "upon"
    ∷ lit "with"
    ∷ lit "within"
    ∷ lit "without"
    ∷ lit "and"
    ∷ lit "but"
    ∷ lit "or"
    ∷ lit "nor"
    ∷ lit "so"
    ∷ lit "yet"
    ∷ lit "as"
    ∷ lit "if"
    ∷ lit "than"
    ∷ lit "that"
    ∷ lit "though"
    ∷ lit "unless"
    ∷ lit "until"
    ∷ lit "when"
    ∷ lit "where"
    ∷ lit "whether"
    ∷ lit "while"
    ∷ lit "i"
    ∷ lit "me"
    ∷ lit "my"
    ∷ lit "mine"
    ∷ lit "myself"
    ∷ lit "you"
    ∷ lit "your"
    ∷ lit "yours"
    ∷ lit "yourself"
    ∷ lit "he"
    ∷ lit "him"
    ∷ lit "his"
    ∷ lit "himself"
    ∷ lit "she"
    ∷ lit "her"
    ∷ lit "hers"
    ∷ lit "herself"
    ∷ lit "it"
    ∷ lit "its"
    ∷ lit "itself"
    ∷ lit "we"
    ∷ lit "us"
    ∷ lit "our"
    ∷ lit "ours"
    ∷ lit "ourselves"
    ∷ lit "they"
    ∷ lit "them"
    ∷ lit "their"
    ∷ lit "theirs"
    ∷ lit "themselves"
    ∷ lit "this"
    ∷ lit "that"
    ∷ lit "these"
    ∷ lit "those"
    ∷ lit "who"
    ∷ lit "whom"
    ∷ lit "whose"
    ∷ lit "which"
    ∷ lit "what"
    ∷ lit "am"
    ∷ lit "is"
    ∷ lit "are"
    ∷ lit "was"
    ∷ lit "were"
    ∷ lit "be"
    ∷ lit "been"
    ∷ lit "being"
    ∷ lit "have"
    ∷ lit "has"
    ∷ lit "had"
    ∷ lit "having"
    ∷ lit "do"
    ∷ lit "does"
    ∷ lit "did"
    ∷ lit "doing"
    ∷ lit "will"
    ∷ lit "would"
    ∷ lit "shall"
    ∷ lit "should"
    ∷ lit "may"
    ∷ lit "might"
    ∷ lit "must"
    ∷ lit "can"
    ∷ lit "could"
    ∷ lit "all"
    ∷ lit "any"
    ∷ lit "both"
    ∷ lit "each"
    ∷ lit "few"
    ∷ lit "more"
    ∷ lit "most"
    ∷ lit "other"
    ∷ lit "some"
    ∷ lit "such"
    ∷ lit "no"
    ∷ lit "not"
    ∷ lit "only"
    ∷ lit "own"
    ∷ lit "same"
    ∷ lit "then"
    ∷ lit "there"
    ∷ lit "very"
    ∷ lit "get"
    ∷ lit "got"
    ∷ lit "make"
    ∷ lit "made"
    ∷ lit "just"
    ∷ lit "like"
    ∷ lit "well"
    ∷ lit "also"
    ∷ lit "back"
    ∷ lit "even"
    ∷ lit "still"
    ∷ lit "way"
    ∷ lit "take"
    ∷ lit "come"
    ∷ lit "give"
    ∷ lit "use"
    ∷ lit "find"
    ∷ lit "tell"
    ∷ lit "ask"
    ∷ lit "work"
    ∷ lit "seem"
    ∷ lit "feel"
    ∷ lit "try"
    ∷ lit "leave"
    ∷ lit "call"
    ∷ []

unfoldable pub tokenize_deterministic : Str → List Str
unfolding tokenize_ascii insert_all
tokenize_deterministic text = insert_all [] (tokenize_ascii text default_min_length)

-- `std::remove_if` with `erase`
unfoldable pub remove_words : List Str → List Str → List Str
unfolding contains
remove_words words [] = []
remove_words words (token ∷ tokens) =
    let rest = remove_words words tokens in if contains words token then rest else token ∷ rest

-- `DeterministicLexicalTokenizer::tokenize`
unfoldable pub tokenize : Bool → Str → Str → ResumeTokenIr
unfolding tokenize_deterministic remove_words assign
tokenize filter_stop_words resume_md source_hash =
    let found = tokenize_deterministic resume_md in
    let tokens = if filter_stop_words then remove_words stop_words found else found in
    record {
      schema_version = lit "0.3";
      source_hash = source_hash;
      tokenizer = record { type = deterministic_lexical; model_id = none; prompt_version = none };
      tokens = assign [] (lit "lexical") tokens;
      spans = [];
    }
