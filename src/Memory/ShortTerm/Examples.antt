-- ===== src/Memory/ShortTerm/Examples.antt =====
-- A cache with room for two.
use actor_web.Common.{ℕ, List, [], ◌∷◌, none, some, find, ◌≡◌, refl, arith}
use actor_web.Memory.ShortTerm.{new_cache, set, Call, setting, run, Experience, blank, forget}
use actor_web.Memory.ShortTerm.Kept.{run-set}
use actor_web.Memory.ShortTerm.Forgotten.{forget_evicts}

abbrev next : List (Call ℕ)
next = setting "b" 2 ∷ []

run-set_example : find (run next (set "a" 1 (new_cache 2))).cache "a" ≡ some 1
run-set_example = run-set "a" 1 (new_cache 2) next (omega arith) (refl, tt)

abbrev held : Experience
held = record { id = "a"; content = "text"; timestamp = 1; importance = 1; tags = [] }

forget_evicts_example :
    let after = (forget "b" (record { cache = ("a", held) ∷ []; max_size = 1 })).cache in
    (find after "a" ≡ none) × (find after "b" ≡ some (blank "b"))
unfolding find
forget_evicts_example = forget_evicts "b" ("a", held) [] 1 (omega arith) refl
