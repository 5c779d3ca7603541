-- ===== src/Debugger/Text/Words.antt =====
-- The words of a line, as the dispatch of tools/debugger/src/cli.c finds them.
use risc_v_virtual_machine.Common.{ℕ, List, [], ◌∷◌, ◌++◌, ◌≡◌, refl, ◌∙◌, ap, ◌==◌, false}
use risc_v_virtual_machine.Debugger.Text.{space, push, split, tokens, first_string}

-- A text with a character at least, none of which is a space.
pub data Word : List ℕ → Type 0 where
  last : {c : ℕ} → (c == space) ≡ false → Word (c ∷ [])
  more : {c : ℕ} {word : List ℕ} → (c == space) ≡ false → Word word → Word (c ∷ word)

pub data Words : List (List ℕ) → Type 0 where
  no_words : Words []
  word_and :
      {word : List ℕ} {words : List (List ℕ)} → Word word → Words words → Words (word ∷ words)

-- The words with a space between each two.
unfoldable pub join : List (List ℕ) → List ℕ
join [] = []
join (word ∷ []) = word
join (word ∷ next ∷ words) = word ++ (space ∷ join (next ∷ words))

split-Word : {word : List ℕ} → Word word → split word ≡ (word, [])
unfolding split
split-Word (last e) = rw e refl
split-Word (more e w) = rw e (rw (split-Word w) refl)

split-Word-space :
    {word : List ℕ} (text : List ℕ)
    → Word word
    → split (word ++ (space ∷ text)) ≡ (word, tokens text)
unfolding split tokens
split-Word-space text (last e) = rw e refl
split-Word-space text (more e w) = rw e (rw (split-Word-space text w) refl)

push-Word : {word : List ℕ} (words : List (List ℕ)) → Word word → push word words ≡ word ∷ words
push-Word words (last e) = refl
push-Word words (more e w) = refl

pub tokens-Word : {word : List ℕ} → Word word → tokens word ≡ word ∷ []
unfolding tokens
tokens-Word w = rw (split-Word w) (push-Word [] w)

pub tokens-Word-space :
    {word : List ℕ} (text : List ℕ)
    → Word word
    → tokens (word ++ (space ∷ text)) ≡ word ∷ tokens text
unfolding tokens
tokens-Word-space {word} text w = rw (split-Word-space text w) (push-Word (tokens text) w)

pub first_string-Word : {word : List ℕ} → Word word → first_string word ≡ word
unfolding first_string split
first_string-Word (last e) = rw e refl
first_string-Word (more e w) = rw e (rw (split-Word w) refl)

pub first_string-Word-space :
    {word : List ℕ} (text : List ℕ) → Word word → first_string (word ++ (space ∷ text)) ≡ word
unfolding first_string split
first_string-Word-space text (last e) = rw e refl
first_string-Word-space text (more e w) = rw e (rw (split-Word-space text w) refl)

-- The tokens of words with a space between each two are the words.
pub tokens-join : {words : List (List ℕ)} → Words words → tokens (join words) ≡ words
unfolding join tokens split
tokens-join no_words = refl
tokens-join {words = word ∷ []} (word_and w no_words) = tokens-Word w
tokens-join {words = word ∷ next ∷ words} (word_and w (word_and v ws)) =
    tokens-Word-space (join (next ∷ words)) w
    ∙ ap (λ rest. word ∷ rest) (tokens-join (word_and v ws))

pub Word-++ : {word rest : List ℕ} → Word word → Word rest → Word (word ++ rest)
Word-++ (last e) v = more e v
Word-++ (more e w) v = more e (Word-++ w v)
