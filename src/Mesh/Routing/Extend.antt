-- ===== src/Mesh/Routing/Extend.antt =====
-- What the two loops over neighbours add to the queue and to the nodes seen.
use actor_web.Common.{
  ℕ, ◌+◌, ◌≤◌, ◌<◌, true, false, not, ◌&&◌, ◌||◌, List, [], ◌∷◌, ◌++◌, ◌≡◌, refl, arith, String,
  includes, same, same_iff, same_refl, map, length, length-append, if◌then◌else◌, All, Bool-cases,
  inl, inr,
}
use actor_web.Mesh.Incarnation.{Numbers}
use actor_web.Mesh.Routing.{
  RouteInput, Search, neighbors_of, safe, last_of, start_paths, extend_path,
}
use actor_web.Mesh.Routing.Paths.{IsPath, IsPath-append}

-- The nodes at which the paths of a queue end.
abbrev pub ends : List (List String) → List String
ends q = map last_of q

pub last_of-append : (path : List String) (n : String) → last_of (path ++ n ∷ []) ≡ n
unfolding last_of
last_of-append [] n = refl
last_of-append (x ∷ []) n = refl
last_of-append (x ∷ y ∷ xs) n = last_of-append (y ∷ xs) n

ends-append :
    (q : List (List String)) (path : List String) (n a : String)
    → includes a (ends (q ++ (path ++ n ∷ []) ∷ [])) ≡ includes a (ends q) || same n a
unfolding includes
ends-append [] path n a = rw (last_of-append path n) (ground (arith, same_iff n a))
ends-append (p ∷ q) path n a = ground (arith, ends-append q path n a)

-- How many of the nodes have not been seen.
unfoldable pub unseen : List String → List String → ℕ
unseen seen [] = 0
unseen seen (n ∷ ns) = (if includes n seen then 0 else 1) + unseen seen ns

unseen-cons_le : (ns seen : List String) (n : String) → unseen (n ∷ seen) ns ≤ unseen seen ns
unfolding unseen includes
unseen-cons_le [] seen n = omega arith
unseen-cons_le (x ∷ ns) seen n = ground (arith, unseen-cons_le ns seen n)

unseen-cons :
    (ns seen : List String) (n : String)
    → includes n ns ≡ true
    → includes n seen ≡ false
    → unseen (n ∷ seen) ns < unseen seen ns
unfolding unseen includes
unseen-cons [] seen n e d = absurd (ground arith)
unseen-cons (x ∷ ns) seen n e d =
    ground (arith, unseen-cons ns seen n, unseen-cons_le ns seen n, same_iff x n, same_iff n x)

module _ {N : Numbers} (input : RouteInput N) where
  abbrev added : List String → String → Search → Search
  added path n s = record { queue = s.queue ++ (path ++ n ∷ []) ∷ []; seen = n ∷ s.seen }

  pub seen-extend_path :
      (ns path : List String) (s : Search) (a : String)
      → includes a (extend_path N input path ns s).seen
        ≡ includes a s.seen || includes a ns && safe N input a
  unfolding extend_path includes
  seen-extend_path [] path s a = ground arith
  seen-extend_path (n ∷ ns) path s a = ground (
    arith,
    seen-extend_path ns path s a,
    seen-extend_path ns path (added path n s) a,
    same_iff n a,
  )

  pub ends-extend_path :
      (ns path : List String) (s : Search) (a : String)
      → includes a (ends (extend_path N input path ns s).queue)
        ≡ includes a (ends s.queue) || includes a ns && safe N input a && not (includes a s.seen)
  unfolding extend_path includes
  ends-extend_path [] path s a = ground arith
  ends-extend_path (n ∷ ns) path s a = ground (
    arith,
    ends-extend_path ns path s a,
    ends-extend_path ns path (added path n s) a,
    ends-append s.queue path n a,
    same_iff n a,
  )

  All-IsPath_end :
      (q : List (List String)) (path : List String)
      → All (IsPath input) q
      → IsPath input path
      → All (IsPath input) (q ++ path ∷ [])
  All-IsPath_end [] path h k = (k, tt)
  All-IsPath_end (p ∷ q) path (i, h) k = (i, All-IsPath_end q path h k)

  pub extend_path-IsPath :
      (ns path : List String) (s : Search)
      → IsPath input path
      → ((n : String)
          → includes n ns ≡ true
          → includes n (neighbors_of input.adjacency (last_of path)) ≡ true)
      → All (IsPath input) s.queue
      → All (IsPath input) (extend_path N input path ns s).queue
  unfolding extend_path includes
  extend_path-IsPath [] path s p e h = h
  extend_path-IsPath (n ∷ ns) path s p e h =
      let rest : (m : String)
          → includes m ns ≡ true
          → includes m (neighbors_of input.adjacency (last_of path)) ≡ true =
        λ m k. e m (ground (arith, k)) in
      elim (Bool-cases (not (includes n s.seen) && safe N input n)) [
        | inr d ↦ rw (d, extend_path) (extend_path-IsPath ns path s p rest h)
        | inl d ↦
            let i =
              IsPath-append input path n p (e n (ground (arith, same_refl n)))
                (ground (arith, d)) in
            rw (d, extend_path)
              (extend_path-IsPath ns path (added path n s) p rest (All-IsPath_end s.queue _ h i))
      ]

  -- The queue grows by no more nodes than are seen for the first time.
  pub length-extend_path :
      (all ns path : List String) (s : Search)
      → ((n : String) → includes n ns ≡ true → includes n all ≡ true)
      → length (extend_path N input path ns s).queue
          + unseen (extend_path N input path ns s).seen all
        ≤ length s.queue + unseen s.seen all
  unfolding extend_path includes
  length-extend_path all [] path s h = omega arith
  length-extend_path all (n ∷ ns) path s h =
      let rest : (m : String) → includes m ns ≡ true → includes m all ≡ true =
        λ m k. h m (ground (arith, k)) in
      elim (Bool-cases (not (includes n s.seen) && safe N input n)) [
        | inr d ↦ rw (d, extend_path) (length-extend_path all ns path s rest)
        | inl d ↦
            rw (d, extend_path)
              (omega (
                arith,
                length-extend_path all ns path (added path n s) rest,
                length-append s.queue ((path ++ n ∷ []) ∷ []),
                unseen-cons all s.seen n (h n (ground (arith, same_refl n))) (ground (arith, d)),
              ))
      ]

  pub seen-start_paths :
      (ns : List String) (s : Search) (a : String)
      → includes a (start_paths N input ns s).seen
        ≡ includes a s.seen || includes a ns && includes a input.connected_nodes && safe N input a
  unfolding start_paths includes
  seen-start_paths [] s a = ground arith
  seen-start_paths (n ∷ ns) s a = ground (
    arith,
    seen-start_paths ns s a,
    seen-start_paths ns (added (input.local_node ∷ []) n s) a,
    same_iff n a,
  )

  pub ends-start_paths :
      (ns : List String) (s : Search) (a : String)
      → includes a (ends (start_paths N input ns s).queue)
        ≡ includes a (ends s.queue)
          || includes a ns && includes a input.connected_nodes && safe N input a
  unfolding start_paths includes
  ends-start_paths [] s a = ground arith
  ends-start_paths (n ∷ ns) s a = ground (
    arith,
    ends-start_paths ns s a,
    ends-start_paths ns (added (input.local_node ∷ []) n s) a,
    ends-append s.queue (input.local_node ∷ []) n a,
    same_iff n a,
  )

  pub start_paths-IsPath :
      (ns : List String) (s : Search)
      → ((n : String)
          → includes n ns ≡ true
          → includes n (neighbors_of input.adjacency input.local_node) ≡ true)
      → All (IsPath input) s.queue
      → All (IsPath input) (start_paths N input ns s).queue
  unfolding start_paths includes
  start_paths-IsPath [] s e h = h
  start_paths-IsPath (n ∷ ns) s e h =
      let rest : (m : String)
          → includes m ns ≡ true
          → includes m (neighbors_of input.adjacency input.local_node) ≡ true =
        λ m k. e m (ground (arith, k)) in
      elim (Bool-cases (includes n input.connected_nodes && safe N input n)) [
        | inr d ↦ rw (d, start_paths) (start_paths-IsPath ns s rest h)
        | inl d ↦
            let i : IsPath input (input.local_node ∷ n ∷ []) = (
              n,
              [],
              refl,
              record {
                neighbor = e n (ground (arith, same_refl n));
                connected = ground (arith, d);
                hop_safe = ground (arith, d);
                walk = tt;
              },
            ) in
            rw (d, start_paths)
              (start_paths-IsPath ns (added (input.local_node ∷ []) n s) rest
                (All-IsPath_end s.queue _ h i))
      ]

  pub length-start_paths :
      (ns : List String) (s : Search)
      → length (start_paths N input ns s).queue ≤ length s.queue + length ns
  unfolding start_paths
  length-start_paths [] s = omega arith
  length-start_paths (n ∷ ns) s = ground (
    arith,
    length-start_paths ns s,
    length-start_paths ns (added (input.local_node ∷ []) n s),
    length-append s.queue ((input.local_node ∷ n ∷ []) ∷ []),
  )
