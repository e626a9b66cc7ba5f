-- ===== src/Config/Resolve/Tests.antt =====
-- Runs of the resolver, and its theorems at concrete trees.
use overseerd.Base.{◌≡◌, refl, none, some, [], ◌∷◌, Text, ok, arith, ℕ}
use overseerd.Config.Value.{
  Placeholder, placeholder, StrKind, ConfigValue, str, int, pos, table, end, entry, lookup_path,
}
use overseerd.Config.Resolve.Actions.{Ctx, enter, consume_step, record_resolved}
use overseerd.Config.Resolve.Budget.{resolve_placeholder-Ran}
use overseerd.Config.Resolve.Runs.{Ran}
use overseerd.Config.Resolve.{resolve_placeholder}

abbrev start : Ctx
start = record { in_flight = []; resolution_steps = 0; rendered_bytes = 0; resolved = [] }

abbrev no_float : ℕ → Text
no_float bits = []

abbrev home : Placeholder
home = record { key = b'@' ∷ b'd' ∷ []; default = some (b'/' ∷ []) }

-- app.x, and app.y = "${app.y:1}"
abbrev x : Placeholder
x = record { key = b'a' ∷ b'.' ∷ b'x' ∷ []; default = none }

abbrev y : Placeholder
y = record { key = b'a' ∷ b'.' ∷ b'y' ∷ []; default = some (b'1' ∷ []) }

abbrev tree : ConfigValue
tree = table (
    entry (b'a' ∷ [])
      (table (
        entry (b'x' ∷ []) (int (pos 1042)) (
          entry (b'y' ∷ [])
            (str (record { segments = placeholder y ∷ []; kind = StrKind.full_placeholder })) end)))
      end)

resolve_int :
    (resolve_placeholder no_float tree [] 65 x start).0 ≡ ok (b'1' ∷ b'0' ∷ b'4' ∷ b'2' ∷ [])
unfolding resolve_placeholder enter consume_step record_resolved lookup_path
resolve_int = refl

resolve_placeholder-Ran_example :
    Ran start
      (resolve_placeholder no_float tree [] 65 x start).0
      (resolve_placeholder no_float tree [] 65 x start).1
resolve_placeholder-Ran_example =
    resolve_placeholder-Ran no_float tree [] 64 start x (omega arith) (omega arith)
