-- ===== src/Runs/Conversation.antt =====
-- `owned` and `append_pair` of repositories/conversation.py.
use ai_powered_codebase_engi.Prelude.{
  ℕ, ◌+◌, ◌-◌, ◌&&◌, Bool, true, false, Option, none, some, List, [], ◌∷◌, ◌++◌, leb, ◌==◌,
  if◌then◌else◌, any, is_some,
}
use ai_powered_codebase_engi.Prelude.Result.{◌>>=◌, Result, ok, err, app_error}
use ai_powered_codebase_engi.Sql.{update_where, select_where, scalar}
use ai_powered_codebase_engi.Jobs.Model.{Repository}
use ai_powered_codebase_engi.Runs.Model.{Text, Conversation, Message, user, assistant, Answer, Db}

-- The join with the repository: both rows must be the user's.
unfoldable pub owns : ℕ → ℕ → Db → Conversation → Bool
owns user_id conversation_id db c =
    c.id == conversation_id
    && (c.user_id == user_id
        && any (λ (r : Repository). r.id == c.repository_id && r.user_id == user_id)
            db.repositories)

or_not_found : Option Conversation → Result Conversation
or_not_found none = err (app_error "not_found" 404)
or_not_found (some c) = ok c

unfoldable pub owned : ℕ → ℕ → Db → Result Conversation
unfolding owns or_not_found
owned user_id conversation_id db =
    or_not_found (scalar (select_where (owns user_id conversation_id db) db.conversations))

unfoldable pub has_room : ℕ → ℕ → Conversation → Bool
has_room user_id conversation_id c =
    c.id == conversation_id && (c.user_id == user_id && leb c.message_count 198)

unfoldable pub add_two : ℕ → Conversation → Conversation
add_two now c = record c { message_count = c.message_count + 2; updated_at = now }

-- `"\n\n".join(...)`
unfoldable pub join_paragraphs : List Text → Text
join_paragraphs [] = []
join_paragraphs (t ∷ []) = t
join_paragraphs (t ∷ rest) = t ++ (10 ∷ 10 ∷ join_paragraphs rest)

is_empty : Text → Bool
is_empty [] = true
is_empty (c ∷ cs) = false

-- The two messages of a turn; `count` is the conversation's new message count.
unfoldable pub pair_of : ℕ → ℕ → Text → Answer → List Message
unfolding join_paragraphs is_empty
pair_of conversation_id count question answer =
    record {
      conversation_id = conversation_id;
      turn_id = answer.answer_id;
      position = count - 1;
      role = user;
      content = question;
      token_count = none;
    }
    ∷ record {
      conversation_id = conversation_id;
      turn_id = answer.answer_id;
      position = count;
      role = assistant;
      content =
          join_paragraphs
            (answer.claims ++ (if is_empty answer.limitation then [] else answer.limitation ∷ []));
      token_count = if is_some answer.model then some answer.output_tokens else none;
    }
    ∷ []

-- What follows the counter's update, which returned the row as it was before.
unfoldable pub add_pair : ℕ → ℕ → ℕ → Text → Answer → Option Conversation → Db → Result Db
unfolding pair_of add_two has_room owned
add_pair now user_id conversation_id question answer none db = do
  found ← owned user_id conversation_id db
  err (app_error "conversation_full" 409)
add_pair now user_id conversation_id question answer (some c) db = ok (record db {
  conversations = update_where (has_room user_id conversation_id) (add_two now) db.conversations;
  messages = db.messages ++ pair_of conversation_id (c.message_count + 2) question answer;
})

unfoldable pub append_pair : ℕ → ℕ → ℕ → Text → Answer → Db → Result Db
unfolding add_pair
append_pair now user_id conversation_id question answer db =
    add_pair now user_id conversation_id question answer
      (scalar (select_where (has_room user_id conversation_id) db.conversations)) db
