-- ===== src/Loading/Storage.antt =====
-- The store behind a load, against the plain replay of the commands.
use mathlib.Core.Path.{fun_ext}
use fraud_ml_platform.Shared.{
  String, ◌≡◌, refl, sym, ap, ◌∙◌, inl, inr, Option, none, some, List, [], ◌∷◌, ◌++◌, arith, str_eq,
  if◌then◌else◌, Bool-cases, Option-cases,
}
use fraud_ml_platform.Loading.Redis.{Store, Command, set_key, execute, execute_batches}
use fraud_ml_platform.Training.Batches.{load_features-batches}
use fraud_ml_platform.Training.Loader.{load_features, concat}

-- The specification: what the last command on a key has set, or else what was there.
abbrev pub last_set : String → List Command → Option String
last_set k [] = none
last_set k ((key, text) ∷ commands) = elim (last_set k commands) [
  | some later ↦ some later
  | none ↦ if str_eq key k then some text else none
]

abbrev pub replay : List Command → Store → Store
replay commands store k = elim (last_set k commands) [ some text ↦ some text | none ↦ store k ]

execute-append :
    (xs ys : List Command) (store : Store)
    → execute (xs ++ ys) store ≡ execute ys (execute xs store)
unfolding execute
execute-append [] ys store = refl
execute-append (x ∷ xs) ys store = execute-append xs ys (set_key x store)

execute_batches-concat :
    (pipes : List (List Command)) (store : Store)
    → execute_batches pipes store ≡ execute (concat pipes) store
unfolding execute_batches execute
execute_batches-concat [] store = refl
execute_batches-concat (pipe ∷ pipes) store =
    execute_batches-concat pipes (execute pipe store)
    ∙ sym (execute-append pipe (concat pipes) store)

execute-replay :
    (commands : List Command) (store : Store) (k : String)
    → execute commands store k ≡ replay commands store k
unfolding execute
execute-replay [] store k = refl
execute-replay ((key, text) ∷ commands) store k =
    let rest = execute-replay commands (set_key (key, text) store) k in
    elim (Option-cases (last_set k commands)) [
      | inl e ↦ elim (Bool-cases (str_eq key k)) [
        | inl same ↦ ground (arith, rest, e, same)
        | inr other ↦ ground (arith, rest, e, other)
      ]
      | inr (later, e) ↦ ground (arith, rest, e)
    ]

pub execute_batches-replay :
    (commands : List Command) (store : Store)
    → execute_batches (load_features commands) store ≡ replay commands store
execute_batches-replay commands store =
    execute_batches-concat (load_features commands) store
    ∙ ap (λ cs. execute cs store) (load_features-batches commands).0
    ∙ fun_ext (execute-replay commands store)
