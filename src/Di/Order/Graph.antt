-- ===== src/Di/Order/Graph.antt =====
-- Indegrees as counts of the predecessors to come, crates/di/src/registry/order.rs.
use overseerd.Base.{
  one_if, ℕ, zero, suc, ◌+◌, ◌-◌, ◌≡◌, refl, Bool, true, false, not, ◌&&◌, List, [], ◌∷◌, ◌++◌, mem,
  get, ◌==◌, if◌then◌else◌, arith, mem-append, Bool-cases, inl, inr, subst,
}
use overseerd.Di.Order.{
  Edges, Indegree, has_edge, raise, lower, add_edge, lower_successors, is_zero,
}

-- How many edges to `id` come from what is not in `ordered`
abbrev pub pending : Edges → List ℕ → ℕ → ℕ
pending [] ordered id = 0
pending ((x, y) ∷ edges) ordered id =
    one_if ((y == id) && not (mem x ordered)) + pending edges ordered id

-- A missing indegree counts as 0.
abbrev pub degree : ℕ → Indegree → ℕ
degree id [] = 0
degree id ((k, n) ∷ indegree) = if k == id then n else degree id indegree

abbrev pub Counts : Edges → List ℕ → Indegree → Type 0
Counts edges ordered indegree = (id : ℕ) → degree id indegree ≡ pending edges ordered id

degree-raise :
    (to id : ℕ) (indegree : Indegree)
    → degree id (raise to indegree) ≡ degree id indegree + one_if (to == id)
unfolding raise
degree-raise to id [] = ground arith
degree-raise to id ((k, n) ∷ indegree) = ground (arith, degree-raise to id indegree)

degree-lower :
    (to id : ℕ) (indegree : Indegree)
    → degree id (lower to indegree) ≡ degree id indegree - one_if (to == id)
unfolding lower
degree-lower to id [] = ground arith
degree-lower to id ((k, n) ∷ indegree) = ground (arith, degree-lower to id indegree)

pending-snoc :
    (edges : Edges) (x y : ℕ) (ordered : List ℕ) (id : ℕ)
    → pending (edges ++ (x, y) ∷ []) ordered id
      ≡ pending edges ordered id + one_if ((y == id) && not (mem x ordered))
pending-snoc [] x y ordered id = omega arith
pending-snoc (e ∷ edges) x y ordered id = omega (arith, pending-snoc edges x y ordered id)

pub add_edge-Counts :
    (from to : ℕ) (edges : Edges) (indegree : Indegree)
    → Counts edges [] indegree
    → Counts (add_edge from to (edges, indegree)).0 [] (add_edge from to (edges, indegree)).1
unfolding add_edge
add_edge-Counts from to edges indegree counts id =
    ground (arith, counts id, degree-raise to id indegree, pending-snoc edges from to [] id)

-- How many edges there are between the two
abbrev between : ℕ → ℕ → Edges → ℕ
between from to [] = 0
between from to ((x, y) ∷ edges) = one_if ((x == from) && (y == to)) + between from to edges

degree-lower_successors :
    (next id : ℕ) (edges : Edges) (indegree : Indegree)
    → degree id (lower_successors next edges indegree) ≡ degree id indegree - between next id edges
unfolding lower_successors
degree-lower_successors next id [] indegree = omega arith
degree-lower_successors next id ((from, to) ∷ edges) indegree = ground (
  arith,
  degree-lower_successors next id edges indegree,
  degree-lower_successors next id edges (lower to indegree),
  degree-lower to id indegree,
)

pending-taken :
    (next id : ℕ) (edges : Edges) (ordered : List ℕ)
    → mem next ordered ≡ false
    → pending edges ordered id ≡ pending edges (ordered ++ next ∷ []) id + between next id edges
pending-taken next id [] ordered h = omega arith
pending-taken next id ((x, y) ∷ edges) ordered h =
    ground (arith, pending-taken next id edges ordered h, mem-append x ordered (next ∷ []))

pub lower_successors-Counts :
    (next : ℕ) (edges : Edges) (ordered : List ℕ) (indegree : Indegree)
    → mem next ordered ≡ false
    → Counts edges ordered indegree
    → Counts edges (ordered ++ next ∷ []) (lower_successors next edges indegree)
lower_successors-Counts next edges ordered indegree fresh counts id = omega (
  arith,
  counts id,
  degree-lower_successors next id edges indegree,
  pending-taken next id edges ordered fresh,
)

pub degree_of_zero :
    (id : ℕ) (indegree : Indegree) → is_zero (get id indegree) ≡ true → degree id indegree ≡ 0
degree_of_zero id [] h = refl
degree_of_zero id ((k, zero) ∷ indegree) h = ground (arith, degree_of_zero id indegree)
degree_of_zero id ((k, suc n) ∷ indegree) h = ground (arith, degree_of_zero id indegree)

none_pending :
    (x id : ℕ) (edges : Edges) (ordered : List ℕ)
    → has_edge x id edges ≡ true
    → pending edges ordered id ≡ 0
    → mem x ordered ≡ true
unfolding has_edge
none_pending x id [] ordered h k = cc
none_pending x id ((a, b) ∷ edges) ordered h k = ground (arith, none_pending x id edges ordered)

-- Whether the first stands in the list before the second's first place
abbrev pub comes_before : ℕ → ℕ → List ℕ → Bool
comes_before x y [] = false
comes_before x y (z ∷ zs) =
    if z == x then mem y zs else if z == y then false else comes_before x y zs

comes_before-append :
    (x y : ℕ) (xs ys : List ℕ) → comes_before x y xs ≡ true → comes_before x y (xs ++ ys) ≡ true
comes_before-append x y [] ys h = cc
comes_before-append x y (z ∷ zs) ys h =
    ground (arith, comes_before-append x y zs ys, mem-append y zs ys)

comes_before-snoc :
    (x y : ℕ) (xs : List ℕ)
    → mem x xs ≡ true
    → mem y xs ≡ false
    → comes_before x y (xs ++ y ∷ []) ≡ true
comes_before-snoc x y [] h k = cc
comes_before-snoc x y (z ∷ zs) h k =
    ground (arith, comes_before-snoc x y zs, mem-append y zs (y ∷ []))

-- Of two ends of an edge, the second is in the list only after the first.
abbrev pub Respects : Edges → List ℕ → Type 0
Respects edges ordered =
    (x y : ℕ) → has_edge x y edges ≡ true → mem y ordered ≡ true → comes_before x y ordered ≡ true

pub snoc-Respects :
    (edges : Edges) (ordered : List ℕ) (next : ℕ)
    → mem next ordered ≡ false
    → pending edges ordered next ≡ 0
    → Respects edges ordered
    → Respects edges (ordered ++ next ∷ [])
snoc-Respects edges ordered next fresh free respects x y edge here =
    elim (Bool-cases (mem y ordered)) [
      | inl old ↦ comes_before-append x y ordered (next ∷ []) (respects x y edge old)
      | inr new ↦
          let same : y ≡ next = ground (arith, mem-append y ordered (next ∷ [])) in
          let before : mem x ordered ≡ true =
            none_pending x next edges ordered (subst (λ z. has_edge x z edges ≡ true) same edge)
              free in
          rw same (comes_before-snoc x next ordered before fresh)
    ]
