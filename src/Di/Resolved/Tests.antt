-- ===== src/Di/Resolved/Tests.antt =====
-- A constructed descriptor and a manual one of its type, and another type's.
use overseerd.Base.{ℕ, ◌≡◌, refl, false, List, [], ◌∷◌, ok, err}
use overseerd.Di.Scopes.{Scope}
use overseerd.Di.Resolved.{
  Factory, Registered, ambiguous_factory, duplicate_component_type, effective_factory, manual,
  chosen_of, replace_chosen, choose, choose_all, resolved_components,
}

abbrev singleton : Scope
singleton = record { rank = 255; scope_name = 1 ∷ []; transient = false }

abbrev explicit : Factory
explicit = record { default = false; dependencies = [] }

abbrev descriptor : ℕ → ℕ → List Factory → Registered
descriptor id type_id factories = record {
  id = id ∷ [];
  name = type_id ∷ [];
  ty = record { name = type_id ∷ []; type_name = type_id ∷ []; type_id = type_id };
  scope = singleton;
  factories = factories;
}

abbrev registered : List Registered
registered =
    descriptor 1 10 (explicit ∷ []) ∷ descriptor 2 20 (explicit ∷ []) ∷ descriptor 3 10 [] ∷ []

resolved :
    resolved_components registered ≡ ok (descriptor 3 10 [] ∷ descriptor 2 20 (explicit ∷ []) ∷ [])
unfolding choose_all choose manual effective_factory chosen_of replace_chosen
resolved = refl

ambiguous :
    resolved_components (descriptor 1 10 (explicit ∷ explicit ∷ []) ∷ [])
    ≡ err (ambiguous_factory (10 ∷ []))
unfolding choose_all choose manual effective_factory
ambiguous = refl

doubled :
    resolved_components (descriptor 1 10 [] ∷ descriptor 2 10 [] ∷ [])
    ≡ err (duplicate_component_type (10 ∷ []))
unfolding choose_all choose manual effective_factory chosen_of
doubled = refl
