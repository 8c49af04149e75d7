-- ===== src/Training/Loader.antt =====
-- training/scripts/load_features_to_redis.py: the pipeline of commands, sent in batches.
-- A command is what `pipe.set` is given, of any type.
use fraud_ml_platform.Shared.{ℕ, ◌+◌, ◌%◌, not, List, [], ◌∷◌, ◌++◌, ◌==◌, if◌then◌else◌}

abbrev pub batch_size : ℕ
batch_size = 1000

-- The `for` loop and the last flush: the batches that are sent, from the number of commands so far
-- and the pipeline's own commands. A pipeline that is sent is empty again.
unfoldable pub send : {A : Type 0} → ℕ → List A → List A → List (List A)
send total pipe [] = if not (total % batch_size == 0) then pipe ∷ [] else []
send total pipe (command ∷ commands) =
    let full = (pipe ++ command ∷ []) ∷ send (total + 1) [] commands in
    let open_pipe = send (total + 1) (pipe ++ command ∷ []) commands in
    if (total + 1) % batch_size == 0 then full else open_pipe

unfoldable pub load_features : {A : Type 0} → List A → List (List A)
load_features commands = send 0 [] commands

abbrev pub concat : {A : Type 0} → List (List A) → List A
concat [] = []
concat (xs ∷ xss) = xs ++ concat xss
