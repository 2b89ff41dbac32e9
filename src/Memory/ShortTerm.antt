-- ===== src/Memory/ShortTerm.antt =====
-- The short-term memory of agents: class LRUCache of packages/actor-core-runtime/src/memory/
-- hybrid-memory.ts, with text keys, and `forget` of class AgentMemory. The cache's map is a dictionary
-- in the order of insertion, so the key that was used longest ago is the first.
pub mod Kept
pub mod Forgotten
mod Examples
use actor_web.Common.{
  ℕ, leb, Bool, true, false, List, [], ◌∷◌, length, Option, none, some, String, same, if◌then◌else◌,
  given, Dict, find, put, erase,
}

pub record LruCache (V : Type 0) : Type 0 where
  pub cache : Dict V
  pub max_size : ℕ

abbrev pub new_cache : {V : Type 0} → ℕ → LruCache V
new_cache max_size = record { cache = []; max_size = max_size }

-- `delete` and then `set`: the key is the last.
unfoldable pub touch : {V : Type 0} → String → V → Dict V → Dict V
touch key v d = put (erase d key) key v

-- The deletion of the first key.
unfoldable pub without_first : {V : Type 0} → Dict V → Dict V
without_first [] = []
without_first (e ∷ d) = erase (e ∷ d) e.0

unfoldable pub get : {V : Type 0} → String → LruCache V → LruCache V × Option V
unfolding touch
get key c =
    given (find c.cache key) (c, none) (λ v. (record c { cache = touch key v c.cache }, some v))

unfoldable pub set : {V : Type 0} → String → V → LruCache V → LruCache V
unfolding touch without_first
set key v c =
    given (find c.cache key)
      (record c {
        cache =
            if leb c.max_size (length c.cache)
            then put (without_first c.cache) key v
            else put c.cache key v;
      })
      (λ old. record c { cache = touch key v c.cache })

-- The importance is a number from 0 to 1 in the source. The context, the valence and the metadata are
-- left out.
pub record Experience : Type 0 where
  pub id : String
  pub content : String
  pub timestamp : ℕ
  pub importance : ℕ
  pub tags : List String

abbrev pub blank : String → Experience
blank id = record { id = id; content = ""; timestamp = 0; importance = 0; tags = [] }

-- `forget`, of the short-term memory.
unfoldable pub forget : String → LruCache Experience → LruCache Experience
unfolding set
forget id c = set id (blank id) c

pub data Call (V : Type 0) : Type 0 where
  getting : String → Call V
  setting : String → V → Call V

unfoldable pub step : {V : Type 0} → Call V → LruCache V → LruCache V
unfolding get set
step (getting key) c = (get key c).0
step (setting key v) c = set key v c

unfoldable pub run : {V : Type 0} → List (Call V) → LruCache V → LruCache V
unfolding step
run [] c = c
run (x ∷ xs) c = run xs (step x c)
