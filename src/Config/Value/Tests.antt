-- ===== src/Config/Value/Tests.antt =====
-- Runs of the path lookup.
use overseerd.Base.{◌≡◌, refl, true, some, [], ◌∷◌}
use overseerd.Config.Value.{ConfigValue, bool, table, end, entry, lookup_path}

abbrev tree : ConfigValue
tree = table (entry (b'a' ∷ []) (table (entry (b'b' ∷ []) (bool true) end)) end)

lookup_path_nested : lookup_path tree (b'a' ∷ b'.' ∷ b'b' ∷ []) ≡ some (bool true)
unfolding lookup_path
lookup_path_nested = refl
