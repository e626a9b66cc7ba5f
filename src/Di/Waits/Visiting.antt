-- ===== src/Di/Waits/Visiting.antt =====
-- The ids under way in `WaitExpansion` of crates/di/src/container.rs, and how many are not yet.
use overseerd.Base.{
  ℕ, ◌≤◌, ◌<◌, ◌≡◌, refl, true, false, not, some, List, [], ◌∷◌, map, length, keep_if, mem, get,
  ◌==◌, All, arith,
}
use overseerd.Di.Construction.{ComponentDescriptor}
use overseerd.Di.Waits.{Recipes}

abbrev not_in : List ℕ → List ℕ → List ℕ
not_in visiting keys = keep_if (λ k. not (mem k visiting)) keys

not_in-enter-le :
    (a : ℕ) (visiting keys : List ℕ)
    → length (not_in (a ∷ visiting) keys) ≤ length (not_in visiting keys)
not_in-enter-le a visiting [] = omega arith
not_in-enter-le a visiting (k ∷ keys) = ground (arith, not_in-enter-le a visiting keys)

not_in-enter-lt :
    (a : ℕ) (visiting keys : List ℕ)
    → mem a keys ≡ true
    → mem a visiting ≡ false
    → length (not_in (a ∷ visiting) keys) < length (not_in visiting keys)
not_in-enter-lt a visiting [] at new = cc
not_in-enter-lt a visiting (k ∷ keys) at new =
    ground (arith, not_in-enter-lt a visiting keys, not_in-enter-le a visiting keys, new)

abbrev pub keys_of : List (ℕ × ComponentDescriptor) → List ℕ
keys_of transients = map (λ (entry : ℕ × ComponentDescriptor). entry.0) transients

mem-keys_of :
    (a : ℕ) (transients : List (ℕ × ComponentDescriptor)) {d : ComponentDescriptor}
    → get a transients ≡ some d
    → mem a (keys_of transients) ≡ true
mem-keys_of a [] found = cc
mem-keys_of a ((k, d) ∷ transients) {d = d'} found =
    ground (arith, mem-keys_of a transients {d = d'})

-- The transient components that are not under way
abbrev pub unvisited : Recipes → List ℕ → ℕ
unvisited r visiting = length (not_in visiting (keys_of r.transients))

few_not_in :
    (visiting : List ℕ) (transients : List (ℕ × ComponentDescriptor))
    → length (not_in visiting (keys_of transients)) ≤ length transients
few_not_in visiting [] = omega arith
few_not_in visiting ((k, d) ∷ transients) = ground (arith, few_not_in visiting transients)

pub unvisited-le : (r : Recipes) (visiting : List ℕ) → unvisited r visiting ≤ length r.transients
unvisited-le r visiting = few_not_in visiting r.transients

pub unvisited-enter-le :
    (r : Recipes) (a : ℕ) (visiting : List ℕ) → unvisited r (a ∷ visiting) ≤ unvisited r visiting
unvisited-enter-le r a visiting = not_in-enter-le a visiting (keys_of r.transients)

pub unvisited-enter-lt :
    (r : Recipes) (a : ℕ) (visiting : List ℕ) {d : ComponentDescriptor}
    → get a r.transients ≡ some d
    → mem a visiting ≡ false
    → unvisited r (a ∷ visiting) < unvisited r visiting
unvisited-enter-lt r a visiting found new =
    not_in-enter-lt a visiting (keys_of r.transients) (mem-keys_of a r.transients found) new

pub leave_absent :
    (a : ℕ) (visiting : List ℕ)
    → mem a visiting ≡ false
    → keep_if (λ (other : ℕ). not (other == a)) visiting ≡ visiting
leave_absent a [] new = refl
leave_absent a (x ∷ visiting) new = ground (arith, leave_absent a visiting)

module _ (rank : ℕ → ℕ) where
  -- All that are under way are of a higher rank.
  abbrev pub IsFree : List ℕ → ℕ → Type 0
  IsFree visiting a = All (λ (x : ℕ). rank a < rank x) visiting

  pub free-absent : (a : ℕ) (visiting : List ℕ) → IsFree visiting a → mem a visiting ≡ false
  free-absent a [] free = refl
  free-absent a (x ∷ visiting) (above, free) = grind (arith, free-absent a visiting free, above)

  pub IsFree-lower :
      (a b : ℕ) (visiting : List ℕ) → rank b < rank a → IsFree visiting a → IsFree (a ∷ visiting) b
  IsFree-lower a b visiting lower free = (lower, below visiting free)
    where
      below : (visiting : List ℕ) → IsFree visiting a → IsFree visiting b
      below [] free = tt
      below (x ∷ visiting) (above, free) = (omega (arith, lower, above), below visiting free)
