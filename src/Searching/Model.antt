-- ===== src/Searching/Model.antt =====
-- `build_context` of retrieval/context.py, and the values of schemas/search.py. A citation id, a
-- letter and a number, is that number; JSON and the tokenizer are one parameter.
use ai_powered_codebase_engi.Prelude.{
  ℕ, suc, String, Option, List, [], ◌∷◌, ◌++◌, leb, length, if◌then◌else◌,
}
use ai_powered_codebase_engi.Runs.Model.{Text}
use ai_powered_codebase_engi.Search.Model.{Mode}
use ai_powered_codebase_engi.Ranking.Floats.{Score}

pub record SearchRequest : Type 0 where
  pub query : Text
  pub mode : Mode
  pub top_k : ℕ
  pub context_token_budget : ℕ

pub record SearchHit : Type 0 where
  pub chunk_id : ℕ
  pub file_id : ℕ
  pub path : Text
  pub language : String
  pub symbol : Option Text
  pub start_line : ℕ
  pub end_line : ℕ
  pub start_offset : ℕ
  pub end_offset : ℕ
  pub content : Text
  pub score : Score
  pub channel_ranks : List (String × ℕ)

pub record Evidence : Type 0 where
  pub citation_id : ℕ
  pub chunk_id : ℕ
  pub path : Text
  pub commit_sha : String
  pub start_line : ℕ
  pub end_line : ℕ
  pub content : Text

unfoldable pub candidate : ℕ → String → SearchHit → Evidence
candidate number commit_sha hit = record {
  citation_id = number;
  chunk_id = hit.chunk_id;
  path = hit.path;
  commit_sha = commit_sha;
  start_line = hit.start_line;
  end_line = hit.end_line;
  content = hit.content;
}

-- `count_tokens(context_json(...))` is a parameter.
module _ (tokens : List Evidence → ℕ) (commit_sha : String) (budget : ℕ) where
  unfoldable pub add_candidate : List Evidence → SearchHit → List Evidence
  unfolding candidate
  add_candidate evidence hit =
      let extended = evidence ++ candidate (suc (length evidence)) commit_sha hit ∷ [] in
      if leb (tokens extended) budget then extended else evidence

  unfoldable pub collect : List SearchHit → List Evidence → List Evidence
  unfolding add_candidate
  collect [] evidence = evidence
  collect (hit ∷ hits) evidence = collect hits (add_candidate evidence hit)

  unfoldable pub build_context : List SearchHit → List Evidence × ℕ
  unfolding collect
  build_context hits = (collect hits [], tokens (collect hits []))
