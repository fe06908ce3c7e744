-- ===== src/Module/Properties.antt =====
-- The accessors of module_base.go for the properties.
use go_infra.Prelude.{Option}
use go_infra.Prelude.Text.{Text}
use go_infra.Prelude.Dict.{Dict}
use go_infra.Config.Property.{PropertyRuntime, property, required_property}
use go_infra.Config.Files.{Opened, LoadError, load_properties}
use go_infra.Module.{AppRuntime}

module _ {W : Type 0} where
  abbrev with_properties : {A : Type 0} → AppRuntime W → PropertyRuntime × A → AppRuntime W × A
  with_properties r (p, x) = (record r { property = p }, x)

  unfoldable pub base_property : Text → AppRuntime W → AppRuntime W × Text
  base_property key r = with_properties r (property key r.property)

  unfoldable pub base_required_property : Text → AppRuntime W → AppRuntime W × Option Text
  base_required_property key r = with_properties r (required_property key r.property)

  unfoldable pub base_load_properties :
      {F : Type 0}
      → (F → Text → Opened)
      → Dict F
      → Text
      → Text
      → AppRuntime W
      → AppRuntime W × Option LoadError
  base_load_properties open_file env_fs env name r =
      with_properties r (load_properties open_file env_fs env name r.property)
