-- ===== src/QueryPipeline/Tests.antt =====
-- The query of qee.c on its own table.
use genspark_training.Base.{◌≡◌, refl, some, [], ◌∷◌, bytes, text_eq}
use genspark_training.QueryPipeline.{records, query, keeps}
use genspark_training.QueryPipeline.Laws.{query-selected, selected}

query-selected_example : query records 3 ≡ some (selected records 0 6, 0)
query-selected_example = query-selected records 3

records-selected :
    selected records 0 6 ≡ (bytes "abc", 90) ∷ (bytes "jkl", 84) ∷ (bytes "xyz", 100) ∷ []
unfolding keeps text_eq
records-selected = refl
