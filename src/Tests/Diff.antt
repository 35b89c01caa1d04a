-- ===== src/Tests/Diff.antt =====
-- daemon/diff.go at a changed plugin configuration and at two interface configurations.
use jack.Base.{◌≡◌, ◌≢◌, ◌↔◌, refl, String, true, false, some, [], ◌∷◌}
use jack.Base.Maps.{lookup, insert, entries}
use jack.Base.Outcome.{ok}
use jack.Types.Value.{bool, field, end}
use jack.Types.Network.{InterfacesConfig}
use jack.Daemon.State.{entry_or_new, has_pending_for, load_committed, alloc, set_pending, store}
use jack.Daemon.Diff.{Slices, DeepEqual, diff_interfaces, handle_diff}
use jack.Daemon.Diff.Empty.{diff_interfaces-empty}
use jack.Daemon.Diff.Panics.{handle_diff-plugin}
use jack.Tests.Paths.{bare_interface, readdressed}
use jack.Tests.State.{changed}

-- Every two slices without elements in a field are a nil and an empty one.
abbrev slices : Slices
slices = record { outer = λ path. true; inner = λ path. false }

abbrev deep : DeepEqual
deep = record {
  slices = slices;
  interfaces_equal = λ a b. false;
  routes_equal = λ a b. false;
  plugins_equal = λ a b. false;
  observer_equal = λ a b. false;
  logging_equal = λ a b. false;
}

handle_diff-plugin_example : handle_diff deep changed ≢ ok []
unfolding has_pending_for entry_or_new load_committed alloc set_pending insert lookup store
handle_diff-plugin_example =
    handle_diff-plugin deep changed "led" (field "enabled" (bool false) end) [] (refl, tt) refl refl
      refl

abbrev old : InterfacesConfig
old = record { interfaces = some (("lan", bare_interface) ∷ []); version = "1" }

abbrev new : InterfacesConfig
new = record { interfaces = some (("lan", readdressed) ∷ []); version = "1" }

diff_interfaces-empty_example : diff_interfaces slices old new ≡ [] ↔ (
    (name : String) → lookup name (entries old.interfaces) ≡ lookup name (entries new.interfaces))
unfolding lookup
diff_interfaces-empty_example = diff_interfaces-empty slices old new (λ path. refl) (refl, tt)
